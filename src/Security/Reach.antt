-- ===== src/Security/Reach.antt =====
-- The fingerprint of src/rag/security/acl.py against the access check.
use mathlib.Core.List.{Perm, append_assoc}
use ai_rag.Prelude.{
  Text, ℕ, List, [], ◌∷◌, ◌++◌, Bool, true, false, ◌≡◌, refl, ap, sym, ◌∙◌, arith, All, any, ◌==◌,
  text_eq, text_eq_refl, text_lt, contains, join, codes,
}
use ai_rag.Prelude.Sort.{any-sort_desc, All-sort_desc, sort_desc-perm_eq}
use ai_rag.Schemas.Principal.{Principal, AclTags}
use ai_rag.Security.Acl.{is_allowed, acl_fingerprint, sorted}

-- A text in which a character does not occur.
abbrev pub Lacks : ℕ → Text → Type 0
Lacks c = All (λ x. (x == c) ≡ false)

-- A group name that the separator cannot blur: not empty, and without a comma.
abbrev pub IsGroup : Text → Type 0
IsGroup [] = ⊥
IsGroup (x ∷ g) = Lacks b',' (x ∷ g)

pub record IsSeparable (p : Principal) : Type 0 where
  pub tenant : Lacks b'|' p.tenant
  pub groups : All IsGroup p.groups

split_unique :
    (c : ℕ) (a b x y : Text)
    → Lacks c a
    → Lacks c b
    → (a ++ (c ∷ x)) ≡ (b ++ (c ∷ y))
    → (a ≡ b) × (x ≡ y)
split_unique c [] [] x y la lb e = (refl, ground arith)
split_unique c [] (d ∷ b) x y la lb e = absurd (ground arith)
split_unique c (d ∷ a) [] x y la lb e = absurd (ground arith)
split_unique c (d ∷ a) (d' ∷ b) x y la lb e =
    let tails : (a ++ (c ∷ x)) ≡ (b ++ (c ∷ y)) = cc in
    let (same, rest) = split_unique c a b x y la.1 lb.1 tails in (ground arith, rest)

Lacks-not-here : (c : ℕ) (a x y : Text) → Lacks c a → a ≡ (x ++ (c ∷ y)) → ⊥
Lacks-not-here c [] [] y l e = ground arith
Lacks-not-here c [] (d ∷ x) y l e = ground arith
Lacks-not-here c (d ∷ a) [] y l e = ground arith
Lacks-not-here c (d ∷ a) (d' ∷ x) y l e = Lacks-not-here c a x y l.1 (cc)

IsGroup-Lacks : (g : Text) → IsGroup g → Lacks b',' g
IsGroup-Lacks [] h = absurd h
IsGroup-Lacks (x ∷ g) h = h

join-injective :
    (xs ys : List Text)
    → All IsGroup xs
    → All IsGroup ys
    → join (codes ",") xs ≡ join (codes ",") ys
    → xs ≡ ys
unfolding join
join-injective [] [] gx gy e = refl
join-injective [] ([] ∷ ys) gx gy e = absurd gy.0
join-injective [] ((c ∷ y) ∷ []) gx gy e = absurd (ground arith)
join-injective [] ((c ∷ y) ∷ z ∷ ys) gx gy e = absurd (ground arith)
join-injective ([] ∷ xs) ys gx gy e = absurd gx.0
join-injective ((c ∷ x) ∷ []) [] gx gy e = absurd (ground arith)
join-injective ((c ∷ x) ∷ z ∷ xs) [] gx gy e = absurd (ground arith)
join-injective (x ∷ []) (y ∷ []) gx gy e = ap (λ t. t ∷ []) e
join-injective (x ∷ []) (y ∷ z ∷ ys) gx gy e =
    absurd (Lacks-not-here b',' x y (join (codes ",") (z ∷ ys)) (IsGroup-Lacks x gx.0) e)
join-injective (x ∷ z ∷ xs) (y ∷ []) gx gy e =
    absurd (Lacks-not-here b',' y x (join (codes ",") (z ∷ xs)) (IsGroup-Lacks y gy.0) (sym e))
join-injective (x ∷ z ∷ xs) (y ∷ w ∷ ys) gx gy e =
    let (same, rest) =
      split_unique b',' x y (join (codes ",") (z ∷ xs)) (join (codes ",") (w ∷ ys))
        (IsGroup-Lacks x gx.0) (IsGroup-Lacks y gy.0) e in
    let tails = join-injective (z ∷ xs) (w ∷ ys) gx.1 gy.1 rest in cc

any-sorted : (p : Text → Bool) (xs : List Text) → any p (sorted xs) ≡ any p xs
unfolding sorted
any-sorted p xs = any-sort_desc (λ x y. text_lt y x) p xs

All-sorted : (P : Text → Type 0) (xs : List Text) → All P xs → All P (sorted xs)
unfolding sorted
All-sorted P xs = All-sort_desc (λ x y. text_lt y x) P xs

module _ (p q : Principal) (sp : IsSeparable p) (sq : IsSeparable q) where
  same_scope :
      acl_fingerprint p ≡ acl_fingerprint q
      → (p.tenant ≡ q.tenant) × (sorted p.groups ≡ sorted q.groups)
  unfolding acl_fingerprint
  same_scope e =
      let (tenants, rest) =
        split_unique b'|' p.tenant q.tenant (join (codes ",") (sorted p.groups))
          (join (codes ",") (sorted q.groups)) sp.tenant sq.tenant e in
      (
        tenants,
        join-injective (sorted p.groups) (sorted q.groups) (All-sorted IsGroup p.groups sp.groups)
            (All-sorted IsGroup q.groups sq.groups) rest,
      )

  -- Two callers whose tenants hold no bar and whose groups are not empty and hold no comma, and who share a
  -- fingerprint, may see exactly the same documents: a cache entry of one is never beyond the reach of the
  -- other.
  pub fingerprint-isolation :
      acl_fingerprint p ≡ acl_fingerprint q → (acl : AclTags) → is_allowed p acl ≡ is_allowed q acl
  unfolding is_allowed
  fingerprint-isolation e acl =
      let (tenants, groups) = same_scope e in
      let test : Text → Bool = λ g. contains g acl.allow_groups in
      let reach : any test p.groups ≡ any test q.groups =
        sym (any-sorted test p.groups) ∙ ap (any test) groups ∙ any-sorted test q.groups in
      rw (tenants, reach)

text_lt_asymm : (a b : Text) → text_lt a b ≡ true → text_lt b a ≡ false
unfolding text_lt
text_lt_asymm [] [] h = ground arith
text_lt_asymm [] (y ∷ b) h = refl
text_lt_asymm (x ∷ a) [] h = ground arith
text_lt_asymm (x ∷ a) (y ∷ b) h = ground (arith, text_lt_asymm a b)

text_ge_trans : (a b c : Text) → text_lt b a ≡ false → text_lt c b ≡ false → text_lt c a ≡ false
unfolding text_lt
text_ge_trans [] b [] h k = refl
text_ge_trans [] b (z ∷ c) h k = refl
text_ge_trans (x ∷ a) [] c h k = ground arith
text_ge_trans (x ∷ a) (y ∷ b) [] h k = ground arith
text_ge_trans (x ∷ a) (y ∷ b) (z ∷ c) h k = ground (arith, text_ge_trans a b c)

text_lt_antisym : (a b : Text) → text_lt b a ≡ false → text_lt a b ≡ false → a ≡ b
unfolding text_lt
text_lt_antisym [] [] h k = refl
text_lt_antisym [] (y ∷ b) h k = ground arith
text_lt_antisym (x ∷ a) [] h k = ground arith
text_lt_antisym (x ∷ a) (y ∷ b) h k = ground (arith, text_lt_antisym a b)

Texts-set : IsSet (List Text)
Texts-set = hlevel

-- The other way round: callers of one tenant with the same set of groups have one fingerprint,
-- whoever they are and however the sets are listed.
pub acl_fingerprint-perm :
    (p q : Principal)
    → p.tenant ≡ q.tenant
    → Perm p.groups q.groups
    → acl_fingerprint p ≡ acl_fingerprint q
unfolding acl_fingerprint
acl_fingerprint-perm p q tenants groups =
    let same : sorted p.groups ≡ sorted q.groups =
      sort_desc-perm_eq (λ x y. text_lt y x) (λ x y. text_lt_asymm y x)
        (λ a b c h k. text_ge_trans a b c h k) Texts-set (λ a b h k. text_lt_antisym a b h k)
        p.groups q.groups groups in
    rw (tenants, same)

longer-ne : (a rest : Text) (c : ℕ) → text_eq a (a ++ (c ∷ rest)) ≡ false
unfolding text_eq
longer-ne [] rest c = refl
longer-ne (x ∷ a) rest c = ground (arith, longer-ne a rest c)

-- Names that hold a separator do collide: for any tenant and text, the caller of the tenant
-- `tenant|rest` and the caller of `tenant` in the group `rest|` share a fingerprint, and there is a
-- document that the first may see and the second may not.
pub fingerprint_collision :
    (p q : Principal) (rest : Text)
    → p.tenant ≡ (q.tenant ++ (codes "|" ++ rest))
    → p.groups ≡ []
    → q.groups ≡ (rest ++ codes "|") ∷ []
    → (acl_fingerprint p ≡ acl_fingerprint q)
      × ((acl : AclTags) × (is_allowed p acl ≡ true) × (is_allowed q acl ≡ false))
unfolding acl_fingerprint is_allowed
fingerprint_collision p q rest tenants none_p one_q = (
  rw (tenants, none_p, one_q) (append_assoc q.tenant (codes "|" ++ rest) (codes "|")),
  (
    record { tenant = p.tenant; allow_groups = []; classification = [] },
    rw (text_eq_refl p.tenant) refl,
    rw (tenants, longer-ne q.tenant rest b'|') refl,
  ),
)
