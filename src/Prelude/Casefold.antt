-- ===== src/Prelude/Casefold.antt =====
-- str.casefold, as far as the program compares its result with ASCII texts.
use Prim.Native.Char.{code}
use Prim.Native.String.{String}
use reckoning.Prelude.{
  ℕ, ◌+◌, Bool, true, false, ◌&&◌, ◌||◌, List, [], ◌∷◌, ◌++◌, leb, ◌==◌, if◌then◌else◌,
}

abbrev pub codes : String → List ℕ
codes String.[] = []
codes (String.◌∷◌ c s) = code c ∷ codes s

-- The case folding of one character, as code points. The characters outside ASCII that fold into
-- ASCII alone are written out. Any other keeps its own code here. Unicode folds it to a text that
-- holds a character outside ASCII, and beside that at most one of a h i j n t w y. So a comparison
-- with an ASCII text has the same answer, and a search for a text without those letters too.
unfoldable pub fold_char : ℕ → List ℕ
fold_char c =
    if leb b'A' c && leb c b'Z'
    then (c + 32) ∷ []
    else if c == 0x212a
    then b'k' ∷ []
    else if c == 0x17f
    then b's' ∷ []
    else if c == 0xdf || c == 0x1e9e
    then b's' ∷ b's' ∷ []
    else if c == 0xfb00
    then b'f' ∷ b'f' ∷ []
    else if c == 0xfb01
    then b'f' ∷ b'i' ∷ []
    else if c == 0xfb02
    then b'f' ∷ b'l' ∷ []
    else if c == 0xfb03
    then b'f' ∷ b'f' ∷ b'i' ∷ []
    else if c == 0xfb04
    then b'f' ∷ b'f' ∷ b'l' ∷ []
    else if c == 0xfb05 || c == 0xfb06
    then b's' ∷ b't' ∷ []
    else c ∷ []

-- str.casefold
unfoldable pub casefold : List ℕ → List ℕ
unfolding fold_char
casefold [] = []
casefold (c ∷ s) = fold_char c ++ casefold s

unfoldable pub codes_equal : List ℕ → List ℕ → Bool
codes_equal [] [] = Bool.true
codes_equal (c ∷ s) (d ∷ t) = c == d && codes_equal s t
codes_equal _ _ = Bool.false

-- the text begins with the other one
unfoldable pub begins_with : List ℕ → List ℕ → Bool
begins_with s [] = true
begins_with [] (d ∷ t) = false
begins_with (c ∷ s) (d ∷ t) = c == d && begins_with s t

-- needle in text
unfoldable pub holds_text : List ℕ → List ℕ → Bool
unfolding begins_with
holds_text needle [] = begins_with [] needle
holds_text needle (c ∷ s) = begins_with (c ∷ s) needle || holds_text needle s
