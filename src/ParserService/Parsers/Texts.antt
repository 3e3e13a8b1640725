-- ===== src/ParserService/Parsers/Texts.antt =====
-- The small functions on texts that the parsers share: firstNonEmpty, cleanText, cleanStrings.
use articleflow.Dedup.{dedup}
use articleflow.Prelude.{[], if◌then◌else◌, ◌∷◌, List, String}
use articleflow.Go.Text.{is_empty, trim_space, fields, join}

unfoldable pub first_non_empty : List String → String
first_non_empty [] = ""
first_non_empty (value ∷ values) =
    let later = first_non_empty values in
    if is_empty (trim_space value) then later else trim_space value

-- cleanText of vc and habr
unfoldable pub clean_text : String → String
unfolding fields join
clean_text value = join (fields value) " "

-- cleanStrings of vc
unfoldable pub clean_strings : List String → List String
unfolding dedup
clean_strings values = dedup trim_space (λ value. value) is_empty values

-- firstNonEmptyStrings of vc
unfoldable pub first_non_empty_strings : List (List String) → List String
unfolding clean_strings
first_non_empty_strings [] = []
first_non_empty_strings (value ∷ values) =
    let later = first_non_empty_strings values in
    elim (clean_strings value) [ [] ↦ later | _ ∷ _ ↦ value ]
