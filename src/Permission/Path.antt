-- ===== src/Permission/Path.antt =====
-- The path helpers of lib/src/permission/permission.cpp: lexical normalization, containment,
-- containment behind symbolic links, and the roots that are always readable.
pub mod Segments
pub mod Containment
pub mod Normal
pub mod Below
mod Examples
use hai_code.Base.{
  Bytes, ℕ, ◌≡◌, Bool, true, false, not, ◌&&◌, ◌||◌, Option, none, some, List, [], ◌∷◌, ◌++◌,
  reverse, codes, eq, any, length, ltb, starts_with, ◌==◌, if◌then◌else◌,
}

abbrev pub slash : ℕ
slash = 47

abbrev pub dot : Bytes
dot = codes "."

abbrev pub dot_dot : Bytes
dot_dot = codes ".."

-- `parts.push_back`, `parts.pop_back` and their guards: the lambda `flush`. The head of the list is
-- the back of the vector.
pub go_up : Bool → List Bytes → List Bytes
go_up absolute [] = if absolute then [] else dot_dot ∷ []
go_up absolute (p ∷ parts) =
    if not (eq p dot_dot) then parts else if absolute then p ∷ parts else dot_dot ∷ p ∷ parts

unfoldable pub is_empty : Bytes → Bool
is_empty [] = true
is_empty (_ ∷ _) = false

unfoldable pub flush : Bool → List Bytes → Bytes → List Bytes
unfolding go_up is_empty
flush absolute parts seg =
    if eq seg dot_dot
    then go_up absolute parts
    else if not (eq seg dot) && not (is_empty seg)
    then seg ∷ parts
    else parts

-- The loop over the characters, and the `flush` behind it.
unfoldable pub loop : Bool → List Bytes → Bytes → Bytes → List Bytes
loop absolute parts seg [] = flush absolute parts seg
loop absolute parts seg (c ∷ p) =
    let at_slash = loop absolute (flush absolute parts seg) [] p in
    let in_segment = loop absolute parts (seg ++ c ∷ []) p in
    if c == slash then at_slash else in_segment

-- The parts with a `/` between them.
unfoldable pub join : List Bytes → Bytes
join [] = []
join (s ∷ []) = s
join (s ∷ t ∷ rest) = s ++ slash ∷ join (t ∷ rest)

unfoldable pub is_absolute : Bytes → Bool
is_absolute [] = false
is_absolute (c ∷ _) = c == slash

pub relative_or_dot : List Bytes → Bytes
relative_or_dot [] = dot
relative_or_dot (s ∷ rest) = join (s ∷ rest)

unfoldable pub normalize_path : Bytes → Bytes
unfolding loop flush join is_absolute relative_or_dot
normalize_path p =
    let absolute = is_absolute p in
    let parts = reverse (loop absolute [] [] p) in
    if absolute then slash ∷ join parts else relative_or_dot parts

-- `s[i] == c` for `i` below the size.
pub char_is : Bytes → ℕ → ℕ → Bool
char_is [] i c = false
char_is (a ∷ s) ℕ.zero c = a == c
char_is (a ∷ s) (ℕ.suc i) c = char_is s i c

-- The last three lines of `is_path_within`.
unfoldable pub under : Bytes → Bytes → Bool
unfolding char_is
under npath nbase =
    eq npath nbase
    || (ltb (length nbase) (length npath)
        && (char_is npath (length nbase) slash && starts_with nbase npath))

unfoldable pub is_path_within : Bytes → Bytes → Bool
is_path_within path base =
    let npath = normalize_path path in
    let nbase = normalize_path base in
    if is_empty path || is_empty base
    then false
    else if not (is_absolute npath)
    then false
    else if not (is_absolute nbase)
    then false
    else if eq nbase (slash ∷ [])
    then true
    else under npath nbase

-- `realpath` is the C library's; `none` is its failure.
module _ (realpath : Bytes → Option Bytes) where
  unfoldable pub path_resolves_within : Bytes → Bytes → Bool
  path_resolves_within path base = elim (realpath path) [
    | none ↦ is_path_within path base
    | some rp ↦ elim (realpath base) [
      | none ↦ is_path_within path base
      | some rb ↦ is_path_within rp rb
    ]
  ]

  abbrev pub roots : List Bytes
  roots =
      codes "/boot/system/develop/headers"
      ∷ codes "/boot/system/non-packaged/develop/headers"
      ∷ codes "/boot/system/documentation"
      ∷ []

  unfoldable pub is_within_always_readable_root : Bytes → Bool
  is_within_always_readable_root path = any (path_resolves_within path) roots

  pub path_is_always_readable : Bytes → Bytes → Bool
  unfolding is_empty
  path_is_always_readable path working_dir =
      if not (is_empty working_dir) && path_resolves_within path working_dir
      then true
      else is_within_always_readable_root path
