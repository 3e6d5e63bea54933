-- ===== src/HubAuth/Cookies.antt =====
-- apps/api/src/modules/hub-auth/service.ts: the texts of cookies, as lists of code points. `show` stands for the
-- decimal text of a number.
pub mod Jars
use sq_hub.Common.{
  ℕ, Option, none, some, List, [], ◌∷◌, ◌++◌, Bool, true, false, not, ◌&&◌, ◌||◌, leb, ◌==◌,
  if◌then◌else◌,
}
use sq_hub.Common.Text.{codes}
use sq_hub.HubAuth.Service.{same_codes}

-- what `trim` takes away
abbrev pub is_space : ℕ → Bool
is_space c =
    (leb 9 c && leb c 13)
    || ((c == 32)
        || ((c == 160)
            || ((c == 5760)
                || ((leb 8192 c && leb c 8202)
                    || ((c == 8232)
                        || ((c == 8233)
                            || ((c == 8239)
                                || ((c == 8287) || ((c == 12288) || (c == 65279))))))))))

abbrev pub trim_start : List ℕ → List ℕ
trim_start [] = []
trim_start (c ∷ cs) = let rest = trim_start cs in if is_space c then rest else c ∷ cs

abbrev pub push_kept : ℕ → List ℕ → List ℕ
push_kept c [] = if is_space c then [] else c ∷ []
push_kept c (d ∷ ds) = c ∷ d ∷ ds

abbrev pub trim_end : List ℕ → List ℕ
trim_end [] = []
trim_end (c ∷ cs) = push_kept c (trim_end cs)

abbrev pub trim : List ℕ → List ℕ
trim cs = trim_start (trim_end cs)

abbrev pub push_code : ℕ → List (List ℕ) → List (List ℕ)
push_code c [] = (c ∷ []) ∷ []
push_code c (p ∷ ps) = (c ∷ p) ∷ ps

-- `header.split(";")`
abbrev pub split_parts : List ℕ → List (List ℕ)
split_parts [] = [] ∷ []
split_parts (c ∷ cs) =
    let rest = split_parts cs in if c == b';' then [] ∷ rest else push_code c rest

-- the text before the first `=`, and the rest joined again after it
abbrev pub raw_name : List ℕ → List ℕ
raw_name [] = []
raw_name (c ∷ cs) = let rest = raw_name cs in if c == b'=' then [] else c ∷ rest

abbrev pub raw_value : List ℕ → List ℕ
raw_value [] = []
raw_value (c ∷ cs) = let rest = raw_value cs in if c == b'=' then cs else rest

-- `value || null`
abbrev pub present : List ℕ → Option (List ℕ)
present [] = none
present (c ∷ cs) = some (c ∷ cs)

abbrev pub find_part : List (List ℕ) → List ℕ → Option (List ℕ)
find_part [] name = none
find_part (p ∷ ps) name =
    let rest = find_part ps name in
    if same_codes (raw_name (trim p)) name then present (raw_value (trim p)) else rest

unfoldable pub read_cookie : List ℕ → List ℕ → Option (List ℕ)
read_cookie [] name = none
read_cookie (c ∷ cs) name = find_part (split_parts (c ∷ cs)) name

-- what follows the first semicolon of a Set-Cookie text
abbrev pub attributes : (ℕ → List ℕ) → ℕ → Bool → List ℕ
attributes show max_age_seconds secure =
    codes " Path=/; HttpOnly; SameSite=Lax; Max-Age="
    ++ show max_age_seconds
    ++ (if secure then codes "; Secure" else [])

unfoldable pub build_cookie : (ℕ → List ℕ) → List ℕ → List ℕ → ℕ → Bool → List ℕ
build_cookie show name value max_age_seconds secure =
    name ++ b'=' ∷ value ++ b';' ∷ attributes show max_age_seconds secure
