-- ===== src/Go/Paths.antt =====
-- `strings.TrimRight(s, "/")`, and `path.Clean` and `path.Join` by the elements between slashes.
use mathlib.Core.List.{foldl, reverse, reverse_aux, reverse-reverse}
use mathlib.Core.Bool.{true≢false}
use compute_user_accounts.Base.{
  All-map, ◌≡◌, List, [], ◌∷◌, Bool, true, false, ◌&&◌, ◌||◌, nat_key, Bytes, codes, bytes_eq,
  if◌then◌else◌, Lacks, All, arith, ap, ◌∙◌, refl, ◌==◌,
}
use compute_user_accounts.Go.Strings.{split, join, split-join}

unfoldable pub trim_slashes : Bytes → Bytes
trim_slashes [] = []
trim_slashes (x ∷ s) =
    let rest = trim_slashes s in if x == b'/' && bytes_eq rest [] then [] else x ∷ rest

-- The elements kept so far, the last one first, and the next element: an empty one and a dot are
-- dropped, and two dots drop the element before them, if there is one that can be dropped.
unfoldable pub clean_up : Bool → List Bytes → List Bytes
clean_up true [] = []
clean_up false [] = codes ".." ∷ []
clean_up rooted (top ∷ kept) = if bytes_eq top (codes "..") then codes ".." ∷ top ∷ kept else kept

unfoldable pub clean_step : Bool → List Bytes → Bytes → List Bytes
unfolding clean_up
clean_step rooted kept e =
    if bytes_eq e [] || bytes_eq e (codes ".")
    then kept
    else if bytes_eq e (codes "..")
    then clean_up rooted kept
    else e ∷ kept

unfoldable pub is_rooted : Bytes → Bool
is_rooted [] = false
is_rooted (x ∷ s) = x == b'/'

unfoldable pub clean : Bytes → Bytes
clean path =
    let body = join (reverse (foldl (clean_step (is_rooted path)) [] (split path b'/'))) b'/' in
    if is_rooted path then b'/' ∷ body else if bytes_eq body [] then codes "." else body

-- Empty elements in front are left out; those further behind fall to `clean`.
unfoldable pub path_join : List Bytes → Bytes
path_join [] = []
path_join (e ∷ es) =
    let rest = path_join es in if bytes_eq e [] then rest else clean (join (e ∷ es) b'/')

-- An element that `path.Clean` keeps as it is.
abbrev pub IsPlain : Bytes → Type 0
IsPlain e =
    Lacks b'/' e
    × (bytes_eq e [] ≡ false)
    × (bytes_eq e (codes ".") ≡ false)
    × (bytes_eq e (codes "..") ≡ false)

foldl-clean_step :
    (rooted : Bool) (kept es : List Bytes)
    → All IsPlain es
    → foldl (clean_step rooted) kept es ≡ reverse_aux es kept
unfolding clean_step
foldl-clean_step rooted kept [] h = refl
foldl-clean_step rooted kept (e ∷ es) h =
    rw (h.0.1, h.0.2, h.0.3) (foldl-clean_step rooted (e ∷ kept) es h.1)

plain_not_rooted :
    (e : Bytes) (es : List Bytes) → IsPlain e → is_rooted (join (e ∷ es) b'/') ≡ false
unfolding is_rooted join
plain_not_rooted [] es h = absurd (true≢false (unfold bytes_eq in h.1))
plain_not_rooted (x ∷ e) [] h = ground arith
plain_not_rooted (x ∷ e) (f ∷ es) h = ground arith

plain_not_empty :
    (e : Bytes) (es : List Bytes) → IsPlain e → bytes_eq (join (e ∷ es) b'/') [] ≡ false
unfolding join bytes_eq
plain_not_empty [] es h = absurd (true≢false h.1)
plain_not_empty (x ∷ e) [] h = refl
plain_not_empty (x ∷ e) (f ∷ es) h = refl

pub path_join-join :
    (e : Bytes) (es : List Bytes) → All IsPlain (e ∷ es) → path_join (e ∷ es) ≡ join (e ∷ es) b'/'
unfolding path_join clean
path_join-join e es h =
    let kept : foldl (clean_step false) [] (split (join (e ∷ es) b'/') b'/') ≡ reverse (e ∷ es) =
      ap (foldl (clean_step false) [])
        (split-join (e ∷ es) b'/' (λ x. cc) (All-map IsPlain _ (λ x l. l.0) (e ∷ es) h))
      ∙ foldl-clean_step false [] (e ∷ es) h in
    rw (h.0.1, plain_not_rooted e es h.0, kept, reverse-reverse (e ∷ es), plain_not_empty e es h.0)
      refl
