-- ===== src/Text.antt =====
-- Texts as lists of bytes, and what the sources use of the C library on them: C strings, sscanf,
-- snprintf, strstr and `std::string::find`.
pub mod Scan
pub mod Print
pub mod Laws
pub mod Search
pub mod Words
use Prim.Native.Char.{code}
use Prim.Native.String.{String}
use stream_sight.Base.{
  ℕ, Bool, true, not, List, [], ◌∷◌, if◌then◌else◌, ◌==◌, ◌&&◌, Option, some, none,
}
use stream_sight.Net.BufferReader.Search.{search}

abbrev pub Text : Type 0
Text = List ℕ

-- The bytes of a literal.
abbrev pub codes : String → Text
codes String.[] = []
codes (String.◌∷◌ c s) = code c ∷ codes s

-- The longest part in front whose bytes pass the test, and the rest.
unfoldable pub span : (ℕ → Bool) → Text → Text × Text
span test [] = ([], [])
span test (c ∷ s) =
    let later = span test s in if test c then (c ∷ later.0, later.1) else ([], c ∷ s)

-- `c_str()` as its reader sees it: up to the first NUL.
unfoldable pub c_str : Text → Text
unfolding span
c_str s = (span (λ c. not (c == 0)) s).0

-- `std::string ==`, `strcmp(…) == 0`
unfoldable pub text_eq : Text → Text → Bool
text_eq [] [] = true
text_eq (x ∷ xs) (y ∷ ys) = x == y && text_eq xs ys
text_eq _ _ = Bool.false

-- `find(…) != npos`, `strstr(…) != NULL`
unfoldable pub contains : Text → Text → Bool
contains p s = elim (search p s) [ none ↦ Bool.false | some at ↦ true ]
