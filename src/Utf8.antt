-- ===== src/Utf8.antt =====
-- `String::from_utf8_lossy` and the texts that are UTF-8 already, for `CStr::to_string_lossy` in
-- src/utils/mod.rs. A sequence is read byte by byte; the longest prefix of one that does not go on
-- becomes one replacement character, and the byte that broke it is read anew.
pub mod Laws
use chroma_db_net.Prelude.{
  ℕ, zero, suc, ◌≡◌, Bool, true, false, ◌&&◌, List, [], ◌∷◌, ◌++◌, ltb, leb, ◌==◌, if◌then◌else◌,
  Text,
}

-- Between two characters, inside one (the bytes read so far, the range of the next byte and how
-- many follow it), or after a byte that begins none.
pub data State : Type 0 where
  ready : State
  inside : Text → ℕ → ℕ → ℕ → State

-- U+FFFD
abbrev pub replacement : Text
replacement = 0xEF ∷ 0xBF ∷ 0xBD ∷ []

abbrev pub between : ℕ → ℕ → ℕ → Bool
between lo hi b = leb lo b && leb b hi

pub data Start : Type 0 where
  single : Start
  lead : ℕ → ℕ → ℕ → Start
  invalid : Start

-- What a first byte announces.
unfoldable pub start : ℕ → Start
start b =
    if ltb b 0x80
    then single
    else if between 0xC2 0xDF b
    then lead 0x80 0xBF 0
    else if b == 0xE0
    then lead 0xA0 0xBF 1
    else if b == 0xED
    then lead 0x80 0x9F 1
    else if between 0xE1 0xEF b
    then lead 0x80 0xBF 1
    else if b == 0xF0
    then lead 0x90 0xBF 2
    else if between 0xF1 0xF3 b
    then lead 0x80 0xBF 2
    else if b == 0xF4
    then lead 0x80 0x8F 2
    else invalid

-- The output for a first byte and the state behind it.
unfoldable pub first : ℕ → Text × State
first b = elim (start b) [
  | single ↦ (b ∷ [], ready)
  | lead lo hi more ↦ ([], inside (b ∷ []) lo hi more)
  | invalid ↦ (replacement, ready)
]

unfoldable pub next : Text → ℕ → ℕ → Text × State
next got zero b = (got ++ b ∷ [], ready)
next got (suc more) b = ([], inside (got ++ b ∷ []) 0x80 0xBF more)

abbrev pub emit : Text → Text × State → Text × State
emit out (more, s) = (out ++ more, s)

unfoldable pub step : State → ℕ → Text × State
unfolding first next
step ready b = first b
step (inside got lo hi more) b =
    if between lo hi b then next got more b else emit replacement (first b)

unfoldable pub decode : State → Text → Text
unfolding step
decode ready [] = []
decode (inside got lo hi more) [] = replacement
decode s (b ∷ bs) = (step s b).0 ++ decode (step s b).1 bs

unfoldable pub lossy : Text → Text
unfolding decode
lossy bs = decode ready bs

-- The same walk as a test: a sequence of whole characters.
unfoldable pub valid : State → Text → Bool
valid ready [] = true
valid (inside got lo hi more) [] = false
valid ready (b ∷ bs) = elim (start b) [
  | single ↦ valid ready bs
  | lead lo hi more ↦ valid (inside (b ∷ []) lo hi more) bs
  | invalid ↦ false
]
valid (inside got lo hi zero) (b ∷ bs) = between lo hi b && valid ready bs
valid (inside got lo hi (suc more)) (b ∷ bs) =
    between lo hi b && valid (inside (got ++ b ∷ []) 0x80 0xBF more) bs

abbrev pub IsUtf8 : Text → Type 0
IsUtf8 t = valid ready t ≡ true
