-- ===== src/Registry/Precedence.antt =====
-- The order of versions by their sort keys, as Python compares tuples.
use Prim.Native.Nat.{compare, Ordering}
use alos_backend.Prelude.{ℕ, ◌≡◌, refl, Bool, true, false}
use alos_backend.Prelude.Comparing.{
  first_of, opposite, compare_lists, IsOrder, compare-IsOrder, both-IsOrder, by_key, by_key-IsOrder,
  lists-IsOrder,
}
use alos_backend.Registry.Version.{Identifier, numeric, textual, VersionKey}

-- `(0, number) < (1, text)`
unfoldable pub compare_identifiers : Identifier → Identifier → Ordering
compare_identifiers (numeric m) (numeric n) = compare m n
compare_identifiers (numeric m) (textual w) = Ordering.lt
compare_identifiers (textual v) (numeric n) = Ordering.gt
compare_identifiers (textual v) (textual w) = compare_lists compare v w

-- `1 if prerelease is None else 0`
abbrev pub final_rank : Bool → ℕ
final_rank true = 1
final_rank false = 0

abbrev pub compare_major : VersionKey → VersionKey → Ordering
compare_major = by_key compare (λ (k : VersionKey). k.major)

abbrev pub compare_minor : VersionKey → VersionKey → Ordering
compare_minor = by_key compare (λ (k : VersionKey). k.minor)

abbrev pub compare_patch : VersionKey → VersionKey → Ordering
compare_patch = by_key compare (λ (k : VersionKey). k.patch)

abbrev pub compare_final : VersionKey → VersionKey → Ordering
compare_final = by_key compare (λ (k : VersionKey). final_rank k.is_final)

abbrev pub compare_prerelease : VersionKey → VersionKey → Ordering
compare_prerelease = by_key (compare_lists compare_identifiers) (λ (k : VersionKey). k.prerelease)

-- the comparison of two keys
unfoldable pub compare_versions : VersionKey → VersionKey → Ordering
unfolding compare_identifiers compare_lists
compare_versions a b = first_of (compare_major a b) (
    first_of (compare_minor a b)
      (first_of (compare_patch a b) (first_of (compare_final a b) (compare_prerelease a b))))

texts : IsOrder (compare_lists compare)
texts = lists-IsOrder compare compare-IsOrder

identifiers-flip : (a b : Identifier) → compare_identifiers b a ≡ opposite (compare_identifiers a b)
unfolding compare_identifiers
identifiers-flip (numeric m) (numeric n) = compare-IsOrder.flip m n
identifiers-flip (numeric m) (textual w) = refl
identifiers-flip (textual v) (numeric n) = refl
identifiers-flip (textual v) (textual w) = texts.flip v w

identifiers-same :
    (a b c : Identifier)
    → compare_identifiers a b ≡ Ordering.eq
    → compare_identifiers a c ≡ compare_identifiers b c
unfolding compare_identifiers
identifiers-same (numeric m) (numeric n) (numeric l) h = compare-IsOrder.same m n l h
identifiers-same (numeric m) (numeric n) (textual w) h = refl
identifiers-same (numeric m) (textual w) c h = cc
identifiers-same (textual v) (numeric n) c h = cc
identifiers-same (textual v) (textual w) (numeric n) h = refl
identifiers-same (textual v) (textual w) (textual u) h = texts.same v w u h

identifiers_trans :
    (a b c : Identifier)
    → compare_identifiers a b ≡ Ordering.lt
    → compare_identifiers b c ≡ Ordering.lt
    → compare_identifiers a c ≡ Ordering.lt
unfolding compare_identifiers
identifiers_trans (numeric m) (numeric n) (numeric l) h k = compare-IsOrder.trans m n l h k
identifiers_trans (numeric m) b (textual w) h k = refl
identifiers_trans (numeric m) (textual w) (numeric n) h k = cc
identifiers_trans (textual v) (numeric n) c h k = cc
identifiers_trans (textual v) (textual w) (numeric n) h k = cc
identifiers_trans (textual v) (textual w) (textual u) h k = texts.trans v w u h k

identifiers-IsOrder : IsOrder compare_identifiers
identifiers-IsOrder = record {
  flip = identifiers-flip;
  same = identifiers-same;
  trans = identifiers_trans;
}

-- The comparison of sort keys is an order: a comparison the other way round gives the opposite,
-- keys that compare as equal compare alike with every other, and it is transitive.
pub compare_versions-IsOrder : IsOrder compare_versions
unfolding compare_versions
compare_versions-IsOrder = both-IsOrder compare_major _ (by_key-IsOrder compare _ compare-IsOrder) (
    both-IsOrder compare_minor _ (by_key-IsOrder compare _ compare-IsOrder) (
      both-IsOrder compare_patch _ (by_key-IsOrder compare _ compare-IsOrder) (
        both-IsOrder compare_final compare_prerelease (by_key-IsOrder compare _ compare-IsOrder) (
          by_key-IsOrder (compare_lists compare_identifiers) (λ (k : VersionKey). k.prerelease)
            (lists-IsOrder compare_identifiers identifiers-IsOrder)))))
