-- ===== src/Url.antt =====
-- URLs as `net/url` takes them apart, and the two checks that the code makes of them
-- (internal/lifecycle/lifecycle.go, routes/api.go). The parser is a parameter: nothing here depends
-- on how a text is split, only on the parts that are read.
use eudi_api_registration.Base.{String, Bool, false, not, ◌&&◌, Option, none, some, ◌==◌}

pub record Url : Type 0 where
  pub scheme : String
  pub has_user : Bool
  pub host : String
  pub path : String
  pub raw_query : String
  pub fragment : String

-- url.Parse; `none` is an error
abbrev pub UrlParser : Type 0
UrlParser = String → Option Url

unfoldable pub is_absolute_https_url : UrlParser → String → Bool
is_absolute_https_url parse raw = elim (parse raw) [
  | none ↦ false
  | some u ↦ u.scheme == "https" && not (u.host == "")
]

unfoldable pub is_web_origin : UrlParser → String → Bool
is_web_origin parse raw = elim (parse raw) [
  | none ↦ false
  | some u ↦
      u.scheme == "https"
      && not (u.host == "")
      && u.path == ""
      && u.raw_query == ""
      && u.fragment == ""
      && not u.has_user
]
