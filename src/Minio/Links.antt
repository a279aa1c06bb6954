-- ===== src/Minio/Links.antt =====
-- `urlGenerator` of minio/utils.go, and `PreSignedGet`, `PreSignedPut` and `PreSignedHeadObject` of
-- presigned_get_utils.go and presigned_put_utils.go. Package net/url is the record Net.
use stdlib_lab.Prelude.{
  Bool, ◌||◌, [], Option, none, some, Result, ok, err, ℤ, pos, Text, codes, text_eqb, if◌then◌else◌,
}
use stdlib_lab.Minio.Observer.{Fault, connection_failed, raised, wrapped, Client, observe_operation}

-- A URL; `others` is its user, its query and its fragment.
pub record Url : Type 0 where
  pub scheme : Text
  pub host : Text
  pub path : Text
  pub others : Text

-- `resolve base p` is the path of `base.ResolveReference` for a URL that is only the path `p`.
pub record Net : Type 0 where
  pub parse : Text → Result Text Url
  pub print : Url → Text
  pub resolve : Url → Text → Text

module _ (net : Net) where
  abbrev pub rebased : Url → Url → Url
  rebased base url = record {
    scheme = base.scheme;
    host = base.host;
    path =
        if text_eqb base.path [] || text_eqb base.path (codes "/")
        then url.path
        else net.resolve base url.path;
    others = url.others;
  }

  unfoldable pub url_generator : Url → Text → Result Fault Text
  url_generator presigned base_url = elim (net.parse base_url) [
    | err e ↦ err (wrapped (codes "invalid BaseURL format") e)
    | ok base ↦ elim (net.parse (net.print presigned)) [
      | err e ↦ err (wrapped (codes "failed to parse presigned URL") e)
      | ok final ↦ ok (net.print (rebased base final))
    ]
  ]

-- What the code takes from minio-go.
pub record Presigner (W : Type 0) : Type 0 where
  pub connected : W → Bool
  pub presigned_get_object : Text → Text → ℤ → W → Result Text Url
  pub presigned_put_object : Text → Text → ℤ → W → Result Text Url
  pub presigned_head_object : Text → Text → ℤ → W → Result Text Url

pub record PresignedConfig : Type 0 where
  pub base_url : Text
  pub expiry_duration : ℤ

abbrev pub error_of : Result Fault Text → Option Fault
error_of (err e) = some e
error_of (ok url) = none

-- The string that Go returns is empty with an error, and left out then.
module _ {W : Type 0} (net : Net) (api : Presigner W) (cfg : PresignedConfig) where
  abbrev pub link_of : Url → Result Fault Text
  link_of url =
      if text_eqb cfg.base_url [] then ok (net.print url) else url_generator net url cfg.base_url

  abbrev pub linked : Text → Text → Text → Result Text Url → Client → Result Fault Text × Client
  linked name bucket key (err e) c =
      (err (raised e), observe_operation name bucket key (some (raised e)) (pos 0) [] c)
  linked name bucket key (ok url) c =
      (link_of url, observe_operation name bucket key (error_of (link_of url)) (pos 0) [] c)

  abbrev pub unlinked : Text → Text → Text → Client → Result Fault Text × Client
  unlinked name bucket key c = (
    err connection_failed,
    observe_operation name bucket key (some connection_failed) (pos 0) [] c,
  )

  unfoldable pub pre_signed_get : Text → Text → Client → W → Result Fault Text × Client
  pre_signed_get bucket key c w =
      if api.connected w
      then linked (codes "presigned_get") bucket key
          (api.presigned_get_object bucket key cfg.expiry_duration w) c
      else unlinked (codes "presigned_get") bucket key c

  unfoldable pub pre_signed_put : Text → Text → Client → W → Result Fault Text × Client
  pre_signed_put bucket key c w =
      if api.connected w
      then linked (codes "presigned_put") bucket key
          (api.presigned_put_object bucket key cfg.expiry_duration w) c
      else unlinked (codes "presigned_put") bucket key c

  unfoldable pub pre_signed_head_object : Text → Text → Client → W → Result Fault Text × Client
  pre_signed_head_object bucket key c w =
      if api.connected w
      then linked (codes "presigned_head") bucket key
          (api.presigned_head_object bucket key cfg.expiry_duration w) c
      else unlinked (codes "presigned_head") bucket key c
