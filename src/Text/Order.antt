-- ===== src/Text/Order.antt =====
-- The order of Python strings, by code point, and `sorted` on lists of them.
use omnicursor.Prelude.{Bool, true, false, List, [], ◌∷◌, ltb, if◌then◌else◌}
use omnicursor.Text.{Text}

unfoldable pub text_le : Text → Text → Bool
text_le [] t = true
text_le (x ∷ s) [] = false
text_le (x ∷ s) (y ∷ t) = if ltb x y then true else if ltb y x then false else text_le s t

unfoldable pub insert_text : Text → List Text → List Text
unfolding text_le
insert_text s [] = s ∷ []
insert_text s (t ∷ ts) = if text_le s t then s ∷ t ∷ ts else t ∷ insert_text s ts

-- `sorted(texts)`
unfoldable pub sorted : List Text → List Text
unfolding insert_text
sorted [] = []
sorted (s ∷ ss) = insert_text s (sorted ss)
