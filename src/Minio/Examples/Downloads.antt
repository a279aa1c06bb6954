-- ===== src/Minio/Examples/Downloads.antt =====
-- A download of twelve bytes in parts of five.
use stdlib_lab.Prelude.{ℕ, pos, true, List, [], ◌∷◌, map, ok, codes, itoa, ◌≡◌, refl, ◌++◌}
use stdlib_lab.Minio.Downloads.{
  Source, MultipartPresignedGetInfo, byte_range, or_default_size, range_of, part_url, part_urls,
  with_info, part_count, generate_multipart_presigned_get_urls,
}
use stdlib_lab.Minio.Downloads.Ranges.{Cuts, Presigned, download_ranges}

abbrev store : Source ℕ
store = record {
  client = λ w. true;
  stat_object = λ bucket key w.
      ok (record { size = 12; content_type = codes "text/plain"; etag = codes "e" });
  presign = λ bucket key expiry range w. ok (key ++ range);
  rebase = λ url. ok url;
  expires_at = λ expiry w. expiry;
}

abbrev download : MultipartPresignedGetInfo
download = record {
  object_key = codes "k";
  presigned_urls = codes "kbytes=0-4" ∷ codes "kbytes=5-9" ∷ codes "kbytes=10-11" ∷ [];
  part_ranges = codes "bytes=0-4" ∷ codes "bytes=5-9" ∷ codes "bytes=10-11" ∷ [];
  expires_at = pos 60;
  total_size = 12;
  content_type = codes "text/plain";
  etag = codes "e";
}

downloaded :
    generate_multipart_presigned_get_urls store (codes "b") (codes "k") (pos 60) 0 (pos 5)
    ≡ ok download
unfolding generate_multipart_presigned_get_urls with_info part_count part_urls part_url byte_range
    itoa range_of
downloaded = refl

download_ranges_example :
    (part_size : ℕ) × (pos part_size ≡ or_default_size (pos 5))
    × (ranges : List (ℕ × ℕ)) × Cuts 12 part_size 0 ranges
    × (download.part_ranges ≡ map byte_range ranges)
    × Presigned store (codes "b") (codes "k") (pos 60) 0 0 ranges download.presigned_urls
download_ranges_example = download_ranges store (codes "b") (codes "k") (pos 60) 0 5 downloaded
