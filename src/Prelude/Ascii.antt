-- ===== src/Prelude/Ascii.antt =====
-- `strip`, `upper` and `lower` of Python's `str`, on a text of ASCII characters, as the list of their codes.
use Prim.Native.Char.{code}
use project_fifty.Prelude.{
  ℕ, ◌+◌, ◌-◌, ◌==◌, Bool, true, false, ◌&&◌, ◌||◌, leb, String, List, [], ◌∷◌, ◌++◌, map,
  if◌then◌else◌,
}

abbrev pub codes : String → List ℕ
codes String.[] = []
codes (String.◌∷◌ c s) = code c ∷ codes s

abbrev is_space : ℕ → Bool
is_space c = c == 32 || (leb 9 c && leb c 13) || (leb 28 c && leb c 31)

abbrev upper_code : ℕ → ℕ
upper_code c = if leb b'a' c && leb c b'z' then c - 32 else c

abbrev drop_spaces : List ℕ → List ℕ
drop_spaces [] = []
drop_spaces (c ∷ cs) = let rest = drop_spaces cs in if is_space c then rest else c ∷ cs

abbrev reversed : List ℕ → List ℕ
reversed [] = []
reversed (c ∷ cs) = reversed cs ++ c ∷ []

-- `text.strip().upper()`
unfoldable pub strip_upper : String → List ℕ
strip_upper text = map upper_code (reversed (drop_spaces (reversed (drop_spaces (codes text)))))

abbrev lower_code : ℕ → ℕ
lower_code c = if leb b'A' c && leb c b'Z' then c + 32 else c

-- `text.lower()` and `text.upper()`
unfoldable pub lower : String → List ℕ
lower text = map lower_code (codes text)

unfoldable pub upper : String → List ℕ
upper text = map upper_code (codes text)

-- `a == b`
abbrev pub codes_eq : List ℕ → List ℕ → Bool
codes_eq [] [] = true
codes_eq (c ∷ cs) (d ∷ ds) = c == d && codes_eq cs ds
codes_eq _ _ = false
