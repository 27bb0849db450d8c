-- ===== src/Release/Compare.antt =====
-- `compare_semantic_versions` of rust/firmware/esp32s3/src/main.rs. That file has a copy of
-- `semantic_version_core`, line by line the one of release.rs.
use esp_wave_rider.Base.{
  ℕ, zero, suc, ◌≡◌, ◌&&◌, Option, none, some, get_elem?, take, ltb, if◌then◌else◌, arith,
}
use esp_wave_rider.Base.Int.{ℤ, pos, negsuc, ◌≤ℤ◌}
use esp_wave_rider.Text.{Text, is_empty, split}
use esp_wave_rider.Text.Number.{parse_u32}
use esp_wave_rider.Release.{semantic_version_core}

-- `part.parse::<u32>().unwrap_or(0)`, where a part that is missing stays 0.
abbrev pub number_of : Option Text → ℕ
number_of none = 0
number_of (some part) = elim (parse_u32 part) [ none ↦ 0 | some n ↦ n ]

pub record SemanticParts : Type 0 where
  pub major : ℕ
  pub minor : ℕ
  pub patch : ℕ

unfoldable pub fill_semantic_parts : Text → SemanticParts
fill_semantic_parts version =
    let parts = take 3 (split version b'.') in
    record {
      major = number_of (get_elem? parts 0);
      minor = number_of (get_elem? parts 1);
      patch = number_of (get_elem? parts 2);
    }

-- The loop over the three indices: the first difference decides.
unfoldable pub compare_parts : SemanticParts → SemanticParts → ℤ
compare_parts l r =
    if ltb l.major r.major
    then negsuc 0
    else if ltb r.major l.major
    then pos 1
    else if ltb l.minor r.minor
    then negsuc 0
    else if ltb r.minor l.minor
    then pos 1
    else if ltb l.patch r.patch
    then negsuc 0
    else if ltb r.patch l.patch
    then pos 1
    else pos 0

unfoldable pub compare_cores : Text → Text → ℤ
compare_cores left_core right_core =
    if is_empty left_core && is_empty right_core
    then pos 0
    else if is_empty left_core
    then negsuc 0
    else if is_empty right_core
    then pos 1
    else compare_parts (fill_semantic_parts left_core) (fill_semantic_parts right_core)

unfoldable pub compare_semantic_versions : Text → Text → ℤ
compare_semantic_versions left right =
    compare_cores (semantic_version_core left) (semantic_version_core right)

-- -1, 0 and 1 the other way round.
abbrev pub opposite : ℤ → ℤ
opposite (pos zero) = pos 0
opposite (pos (suc n)) = negsuc n
opposite (negsuc n) = pos (suc n)

parts_swap : (l r : SemanticParts) → compare_parts r l ≡ opposite (compare_parts l r)
unfolding compare_parts
parts_swap l r = ground arith

parts_trans :
    (a b c : SemanticParts)
    → compare_parts a b ≤ℤ pos 0
    → compare_parts b c ≤ℤ pos 0
    → compare_parts a c ≤ℤ pos 0
unfolding compare_parts
parts_trans a b c h k = ground arith

cores_swap : (l r : Text) → compare_cores r l ≡ opposite (compare_cores l r)
unfolding compare_cores
cores_swap l r = ground (arith, parts_swap (fill_semantic_parts l) (fill_semantic_parts r))

cores_trans :
    (a b c : Text)
    → compare_cores a b ≤ℤ pos 0
    → compare_cores b c ≤ℤ pos 0
    → compare_cores a c ≤ℤ pos 0
unfolding compare_cores
cores_trans a b c h k =
    ground
      (arith, parts_trans (fill_semantic_parts a) (fill_semantic_parts b) (fill_semantic_parts c))

-- Comparing two versions the other way round gives the opposite result.
pub compare_semantic_versions_swap :
    (left right : Text)
    → compare_semantic_versions right left ≡ opposite (compare_semantic_versions left right)
unfolding compare_semantic_versions
compare_semantic_versions_swap left right =
    cores_swap (semantic_version_core left) (semantic_version_core right)

-- A version that is not after a second one, which is not after a third, is not after the third.
pub compare_semantic_versions_trans :
    (a b c : Text)
    → compare_semantic_versions a b ≤ℤ pos 0
    → compare_semantic_versions b c ≤ℤ pos 0
    → compare_semantic_versions a c ≤ℤ pos 0
unfolding compare_semantic_versions
compare_semantic_versions_trans a b c h k =
    cores_trans (semantic_version_core a) (semantic_version_core b) (semantic_version_core c) h k
