-- ===== src/Minio/Downloads.antt =====
-- minio/presigned_get_utils.go: `GenerateMultipartPresignedGetURLs`, over minio-go, net/url and the
-- clock. The state of the store is not changed, and the size of an object is not negative.
pub mod Ranges
use stdlib_lab.Prelude.{
  ℕ, zero, suc, ◌+◌, ◌-◌, ◌*◌, ◌/◌, Bool, true, false, List, [], ◌∷◌, ◌++◌, Option, none, some,
  Result, ok, err, ℤ, pos, negsuc, int_eqb, int_ltb, ltb, leb, nat_eqb, Text, codes, itoa,
  if◌then◌else◌,
}
use stdlib_lab.Minio.PartSizes.{ceil_div}

abbrev pub multipart_download_default_part_size : ℕ
multipart_download_default_part_size = 5 * 1024 * 1024

pub record ObjectInfo : Type 0 where
  pub size : ℕ
  pub content_type : Text
  pub etag : Text

-- What the code takes from outside: `client` says whether the pointer is set, `presign` is given the
-- duration and the byte range, and `rebase` is `urlGenerator` with the configured base URL, or the URL
-- as it is.
pub record Source (W : Type 0) : Type 0 where
  pub client : W → Bool
  pub stat_object : Text → Text → W → Result Text ObjectInfo
  pub presign : Text → Text → ℤ → Text → W → Result Text Text
  pub rebase : Text → Result Text Text
  pub expires_at : ℤ → W → ℤ

-- `negative_parts` is the panic of `make` at a negative length.
pub data DownloadError : Type 0 where
  connection_failed negative_parts : DownloadError
  stat_failed rebase_failed : Text → DownloadError
  presign_failed : ℕ → Text → DownloadError

pub record MultipartPresignedGetInfo : Type 0 where
  pub object_key : Text
  pub presigned_urls : List Text
  pub part_ranges : List Text
  pub expires_at : ℤ
  pub total_size : ℕ
  pub content_type : Text
  pub etag : Text

-- `int(math.Ceil(float64(totalSize) / float64(partSize)))`, exact for sizes below 2 ^ 53. A quotient
-- that is not positive is rounded towards zero.
unfoldable pub part_count : ℕ → ℤ → ℤ
part_count total (pos part_size) = pos (ceil_div total part_size)
part_count total (negsuc n) =
    if nat_eqb (total / suc n) 0 then pos 0 else negsuc (total / suc n - 1)

-- The first and the last byte of the part with the given index.
unfoldable pub range_of : ℕ → ℕ → ℕ → ℕ × ℕ
range_of total part_size i =
    let start_byte = i * part_size in
    let end_byte = start_byte + part_size - 1 in
    (start_byte, if leb total end_byte then total - 1 else end_byte)

unfoldable pub byte_range : ℕ × ℕ → Text
byte_range (start_byte, end_byte) =
    codes "bytes=" ++ (itoa (pos start_byte) ++ (codes "-" ++ itoa (pos end_byte)))

abbrev pub or_default_size : ℤ → ℤ
or_default_size part_size =
    if int_eqb part_size (pos 0) then pos multipart_download_default_part_size else part_size

module _ {W : Type 0} (api : Source W) (bucket key : Text) (expiry : ℤ) (w : W) where
  unfoldable pub part_url : ℕ → ℕ × ℕ → Result DownloadError Text
  part_url i range = elim (api.presign bucket key expiry (byte_range range) w) [
    | err e ↦ err (presign_failed (suc i) e)
    | ok url ↦ elim (api.rebase url) [ err e ↦ err (rebase_failed e) | ok final ↦ ok final ]
  ]

  -- The loop over the parts: `left` more, the next of index `i`.
  unfoldable pub part_urls : ℕ → ℕ → ℕ → ℕ → Result DownloadError (List Text × List Text)
  part_urls total part_size zero i = ok ([], [])
  part_urls total part_size (suc left) i =
      let rest = part_urls total part_size left (suc i) in
      let range = range_of total part_size i in
      elim (part_url i range) [
        | err e ↦ err e
        | ok url ↦ elim rest [
          | err e ↦ err e
          | ok (urls, ranges) ↦ ok (url ∷ urls, byte_range range ∷ ranges)
        ]
      ]

  -- From the object's information on. The loop is not entered with a part size below zero.
  unfoldable pub with_info : ObjectInfo → ℤ → ℤ → Result DownloadError MultipartPresignedGetInfo
  with_info info part_size (negsuc n) = err negative_parts
  with_info info part_size (pos count) =
      elim (part_urls info.size (elim part_size [ pos n ↦ n | negsuc n ↦ 0 ]) count 0) [
        | err e ↦ err e
        | ok (urls, ranges) ↦ ok (record {
          object_key = key;
          presigned_urls = urls;
          part_ranges = ranges;
          expires_at = api.expires_at expiry w;
          total_size = info.size;
          content_type = info.content_type;
          etag = info.etag;
        })
      ]

  -- `expiry` is the duration after its default is put in.
  unfoldable pub generate_multipart_presigned_get_urls :
      ℤ → Result DownloadError MultipartPresignedGetInfo
  generate_multipart_presigned_get_urls part_size =
      if api.client w
      then elim (api.stat_object bucket key w) [
        | err e ↦ err (stat_failed e)
        | ok info ↦
            let size = or_default_size part_size in with_info info size (part_count info.size size)
      ]
      else err connection_failed

-- `IsExpired`, at a time in seconds.
unfoldable pub is_expired : MultipartPresignedGetInfo → ℤ → Bool
is_expired info now = int_ltb info.expires_at now
