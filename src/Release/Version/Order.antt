-- ===== src/Release/Version/Order.antt =====
-- `Compare` and `Bump` of scripts/ci_release/domain/semantic_version.go.
use devkit_go.Prelude.{ℕ, ◌-◌, ◌+◌, ◌^◌, ◌<◌, ◌≡◌, ◌≢◌, ◌↔◌, ◌⊎◌, ap, arith, ok}
use devkit_go.Prelude.Int.{ℤ, pos, negsuc, ◌-ℤ◌, ◌+ℤ◌, pos_part, neg_part}
use devkit_go.Prelude.Int64.{add64, wrap64_lem}
use devkit_go.Release.Version.{
  VersionIncrement, major, minor, patch, unknown, SemanticVersion, compare, bump,
}
use devkit_go.Release.Version.Print.{IsValid}

-- `compare` gives 0 exactly on equal versions.
pub compare-zero : (v w : SemanticVersion) → (compare v w ≡ pos 0) ↔ (v ≡ w)
unfolding compare
compare-zero v w = ground arith

pub compare-cases :
    (v w : SemanticVersion)
    → (compare v w ≡ negsuc 0) ⊎ (compare v w ≡ pos 0) ⊎ (compare v w ≡ pos 1)
unfolding compare
compare-cases v w = ground arith

-- `compare` of swapped versions is the opposite.
pub compare-swap : (v w : SemanticVersion) → compare w v ≡ pos 0 -ℤ compare v w
unfolding compare ◌-ℤ◌
compare-swap v w = ground arith

-- The lexicographic order on the three numbers.
infix 50 ◌<ℤ◌
abbrev pub ◌<ℤ◌ : ℤ → ℤ → Type 0
a <ℤ b = pos_part a + neg_part b < pos_part b + neg_part a

abbrev pub Before : SemanticVersion → SemanticVersion → Type 0
Before v w =
    (v.major_number <ℤ w.major_number)
    ⊎ ((v.major_number ≡ w.major_number) × (v.minor_number <ℤ w.minor_number))
    ⊎ ((v.major_number ≡ w.major_number)
        × (v.minor_number ≡ w.minor_number)
        × (v.patch_number <ℤ w.patch_number))

pub compare-Before : (v w : SemanticVersion) → (compare v w ≡ negsuc 0) ↔ Before v w
unfolding compare
compare-Before v w = ground arith

Before-trans : (u v w : SemanticVersion) → Before u v → Before v w → Before u w
Before-trans u v w h k = ground arith

-- The order that `compare` decides is transitive.
pub compare_trans :
    (u v w : SemanticVersion)
    → compare u v ≡ negsuc 0
    → compare v w ≡ negsuc 0
    → compare u w ≡ negsuc 0
compare_trans u v w h k =
    (compare-Before u w).1
      (Before-trans u v w ((compare-Before u v).0 h) ((compare-Before v w).0 k))

-- `compare` is the lexicographic order of the three numbers: -1 exactly when the first version comes
-- before the second, 0 exactly when they are equal, and opposite when swapped.
pub compare_total_order :
    (u v : SemanticVersion)
    → ((compare u v ≡ negsuc 0) ↔ Before u v)
      × ((compare u v ≡ pos 0) ↔ (u ≡ v))
      × (compare v u ≡ pos 0 -ℤ compare u v)
compare_total_order u v = (compare-Before u v, compare-zero u v, compare-swap u v)

-- The number that an increment raises.
abbrev pub raised : VersionIncrement → SemanticVersion → ℤ
raised major v = v.major_number
raised minor v = v.minor_number
raised patch v = v.patch_number
raised unknown v = pos 0

next : (n : ℕ) → n < 2 ^ 63 - 1 → add64 (pos n) (pos 1) ≡ pos (n + 1)
unfolding add64 ◌+ℤ◌
next n h = ground (arith, wrap64_lem (pos (n + 1)))

-- A bumped version is valid and greater than a valid version, unless the raised number is the greatest
-- int64.
pub bump-greater :
    (v : SemanticVersion) (i : VersionIncrement) {w : SemanticVersion}
    → IsValid v
    → raised i v ≢ pos (2 ^ 63 - 1)
    → bump v i ≡ ok w
    → IsValid w × (compare w v ≡ pos 1)
unfolding bump compare
bump-greater v major {w} valid k h =
    let (n, e, l) = valid.major_natural in
    let low : n < 2 ^ 63 - 1 = ground arith in
    let e' : w ≡ record { major_number = pos (n + 1); minor_number = pos 0; patch_number = pos 0 } =
      ground (arith, next n low) in
    (
      record {
        major_natural = (n + 1, ground arith, ground arith);
        minor_natural = (0, ground arith, ground arith);
        patch_natural = (0, ground arith, ground arith);
      },
      ground arith,
    )
bump-greater v minor {w} valid k h =
    let (n, e, l) = valid.minor_natural in
    let low : n < 2 ^ 63 - 1 = ground arith in
    let e' : w ≡ record {
      major_number = v.major_number;
      minor_number = pos (n + 1);
      patch_number = pos 0;
    } =
      ground (arith, next n low) in
    (
      record {
        major_natural = rw (ap (λ (x : SemanticVersion). x.major_number) e') valid.major_natural;
        minor_natural = (n + 1, ground arith, ground arith);
        patch_natural = (0, ground arith, ground arith);
      },
      ground arith,
    )
bump-greater v patch {w} valid k h =
    let (n, e, l) = valid.patch_natural in
    let low : n < 2 ^ 63 - 1 = ground arith in
    let e' : w ≡ record {
      major_number = v.major_number;
      minor_number = v.minor_number;
      patch_number = pos (n + 1);
    } =
      ground (arith, next n low) in
    (
      record {
        major_natural = rw (ap (λ (x : SemanticVersion). x.major_number) e') valid.major_natural;
        minor_natural = rw (ap (λ (x : SemanticVersion). x.minor_number) e') valid.minor_natural;
        patch_natural = (n + 1, ground arith, ground arith);
      },
      ground arith,
    )
bump-greater v unknown valid k h = cc
