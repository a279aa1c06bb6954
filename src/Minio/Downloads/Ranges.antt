-- ===== src/Minio/Downloads/Ranges.antt =====
-- The byte ranges of a download cut the object into parts.
use stdlib_lab.Prelude.{
  ℕ, zero, suc, ◌+◌, ◌-◌, ◌*◌, ◌≤◌, ◌<◌, List, [], ◌∷◌, map, ok, ℤ, pos, Text, ◌≡◌, refl, sym,
  arith, Result-cases, inl, inr,
}
use stdlib_lab.Minio.PartSizes.{ceil_div}
use stdlib_lab.Minio.Multipart.PartSize.{ceil_div-covers, ceil_div-le, ceil_div-tight}
use stdlib_lab.Minio.Downloads.{
  ObjectInfo, Source, MultipartPresignedGetInfo, part_count, range_of, byte_range, part_url,
  part_urls, with_info, or_default_size, multipart_download_default_part_size,
  generate_multipart_presigned_get_urls,
}

-- From the given byte on, each range begins where the one before it has ended, holds at least one byte
-- and at most a part, and the last ends with the object.
abbrev pub Cuts : ℕ → ℕ → ℕ → List (ℕ × ℕ) → Type 0
Cuts total part_size next [] = next ≡ total
Cuts total part_size next ((a, b) ∷ rest) =
    (a ≡ next) × (a ≤ b) × (b < a + part_size) × (b < total) × Cuts total part_size (suc b) rest

abbrev pub ranges_from : ℕ → ℕ → ℕ → ℕ → List (ℕ × ℕ)
ranges_from total part_size zero i = []
ranges_from total part_size (suc left) i =
    range_of total part_size i ∷ ranges_from total part_size left (suc i)

suc_mul : (i p : ℕ) → suc i * p ≡ i * p + p
suc_mul i p = grind arith

-- A part that is not the last has its full size.
full_range :
    (total part_size i : ℕ)
    → 0 < part_size
    → i * part_size + part_size < total
    → range_of total part_size i ≡ (i * part_size, i * part_size + part_size - 1)
unfolding range_of
full_range total part_size i h more = ground arith

last_range :
    (total part_size i : ℕ)
    → i * part_size < total
    → total ≤ i * part_size + part_size
    → range_of total part_size i ≡ (i * part_size, total - 1)
unfolding range_of
last_range total part_size i begun covers = ground arith

-- One part more than `left`, of which none is empty.
ranges_from-Cuts :
    (total part_size left i : ℕ)
    → 0 < part_size
    → i * part_size + left * part_size < total
    → total ≤ i * part_size + left * part_size + part_size
    → Cuts total part_size (i * part_size) (ranges_from total part_size (suc left) i)
ranges_from-Cuts total part_size zero i h begun covers =
    rw (last_range total part_size i (omega arith) (omega arith))
      (refl, omega arith, omega arith, omega arith, omega arith)
ranges_from-Cuts total part_size (suc left) i h begun covers =
    let more = suc_mul left part_size in
    let next = suc_mul i part_size in
    let start : suc (i * part_size + part_size - 1) ≡ suc i * part_size = omega arith in
    let rest : Cuts total part_size (suc i * part_size)
        (ranges_from total part_size (suc left) (suc i)) =
      ranges_from-Cuts total part_size left (suc i) h (omega arith) (omega arith) in
    rw (full_range total part_size i h (omega arith))
      (refl, omega arith, omega arith, omega arith, rw start rest)

split_count :
    (total part_size count : ℕ)
    → 0 < part_size
    → 0 < total
    → total ≤ part_size * count
    → part_size * count < total + part_size
    → (left : ℕ) × (count ≡ suc left)
      × (left * part_size < total)
      × (total ≤ left * part_size + part_size)
split_count total part_size zero h some_bytes covers tight = absurd (omega arith)
split_count total part_size (suc left) h some_bytes covers tight =
    let product : part_size * suc left ≡ left * part_size + part_size = grind arith in
    (left, refl, omega arith, omega arith)

count-Cuts :
    (total part_size : ℕ)
    → 0 < part_size
    → Cuts total part_size 0 (ranges_from total part_size (ceil_div total part_size) 0)
count-Cuts zero part_size h =
    let none_needed : ceil_div 0 part_size ≡ 0 =
      le_zero (ceil_div-le 0 part_size 0 h (omega arith)) in
    rw none_needed refl
  where
    le_zero : {n : ℕ} → n ≤ 0 → n ≡ 0
    le_zero h = omega arith
count-Cuts (suc n) part_size h =
    let (left, count, begun, covers) =
      split_count (suc n) part_size (ceil_div (suc n) part_size) h (omega arith)
        (ceil_div-covers (suc n) part_size h) (ceil_div-tight (suc n) part_size h) in
    let start : 0 * part_size ≡ 0 = omega arith in
    let cut = ranges_from-Cuts (suc n) part_size left 0 h (omega arith) (omega arith) in
    rw count (rw start at cut)

size_or_default : (n : ℕ) → (m : ℕ) × (or_default_size (pos n) ≡ pos m) × (0 < m)
size_or_default zero = (multipart_download_default_part_size, refl, omega arith)
size_or_default (suc n) = (suc n, ground arith, omega arith)

module _ {W : Type 0} (api : Source W) (bucket key : Text) (expiry : ℤ) (w : W) where
  -- The URL of each range, the first of the given index, is presigned for that range.
  abbrev pub Presigned : ℕ → List (ℕ × ℕ) → List Text → Type 0
  Presigned i [] [] = Unit {0}
  Presigned i (range ∷ ranges) (url ∷ urls) =
      (part_url api bucket key expiry w i range ≡ ok url) × Presigned (suc i) ranges urls
  Presigned i _ _ = ⊥

  part_urls-ok :
      (total part_size left i : ℕ) {urls ranges : List Text}
      → part_urls api bucket key expiry w total part_size left i ≡ ok (urls, ranges)
      → (ranges ≡ map byte_range (ranges_from total part_size left i))
        × Presigned i (ranges_from total part_size left i) urls
  unfolding part_urls
  part_urls-ok total part_size zero i {urls = []} h = (ground arith, tt)
  part_urls-ok total part_size zero i {urls = url ∷ urls} h = absurd (ground arith)
  part_urls-ok total part_size (suc left) i {urls} {ranges} h =
      elim (Result-cases (part_url api bucket key expiry w i (range_of total part_size i))) [
        | inl (e, failed) ↦ absurd (ground arith)
        | inr (url, made) ↦
            elim (Result-cases (part_urls api bucket key expiry w total part_size left (suc i))) [
              | inl (e, failed) ↦ absurd (ground arith)
              | inr ((us, rs), rest) ↦
                  let (found, presigned) = part_urls-ok total part_size left (suc i) rest in
                  let first : urls ≡ url ∷ us = ground arith in
                  (ground arith, rw first (made, presigned))
            ]
      ]

  with_info-ok :
      (found : ObjectInfo) (m : ℕ) {info : MultipartPresignedGetInfo}
      → 0 < m
      → with_info api bucket key expiry w found (pos m) (pos (ceil_div found.size m)) ≡ ok info
      → (info.total_size ≡ found.size)
        × (info.part_ranges ≡ map byte_range (ranges_from found.size m (ceil_div found.size m) 0))
        × Presigned 0 (ranges_from found.size m (ceil_div found.size m) 0) info.presigned_urls
  unfolding with_info
  with_info-ok found m {info} positive h =
      elim (Result-cases
        (part_urls api bucket key expiry w found.size m (ceil_div found.size m) 0)) [
          | inl (e, failed) ↦ absurd (ground arith)
          | inr ((urls, ranges), made) ↦
              let (same, presigned) = part_urls-ok found.size m (ceil_div found.size m) 0 made in
              let all_urls : info.presigned_urls ≡ urls = ground arith in
              (ground arith, ground arith, rw all_urls presigned)
        ]

  -- On success with a part size that is not negative, 0 standing for 5 MiB, the ranges cut the object
  -- into parts: each begins where the one before it has ended, holds at least one byte and at most a
  -- part, and the last ends with the object; and each URL is presigned for the range at its place.
  pub download_ranges :
      (n : ℕ) {info : MultipartPresignedGetInfo}
      → generate_multipart_presigned_get_urls api bucket key expiry w (pos n) ≡ ok info
      → (part_size : ℕ) × (pos part_size ≡ or_default_size (pos n))
        × (ranges : List (ℕ × ℕ)) × Cuts info.total_size part_size 0 ranges
        × (info.part_ranges ≡ map byte_range ranges)
        × Presigned 0 ranges info.presigned_urls
  unfolding generate_multipart_presigned_get_urls with_info part_count
  download_ranges n {info} h = elim (Result-cases (api.stat_object bucket key w)) [
    | inl (e, failed) ↦ absurd (ground arith)
    | inr (found, stat) ↦
        let (m, size, positive) = size_or_default n in
        let (total, ranges, presigned) =
          with_info-ok found m {info = info} positive (ground (arith, size)) in
        (
          m,
          sym size,
          ranges_from found.size m (ceil_div found.size m) 0,
          rw total (count-Cuts found.size m positive),
          ranges,
          presigned,
        )
  ]
