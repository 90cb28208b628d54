-- ===== src/Source/Misp/Cpe.antt =====
-- internal/source/misp.go: CPE names.
use mathlib.Core.List.{List, [], ◌∷◌}
use threat_intel_arbiter.Common.{
  ◌≡◌, refl, ◌||◌, Option, none, some, String, ◌==◌, if◌then◌else◌, has_prefix, trim_prefix,
  trim_space, to_lower, split,
}
use threat_intel_arbiter.Model.{AffectedProduct}
use threat_intel_arbiter.Notify.Crowdstrike.Validation.{replace_all}

unfoldable pub cpe_unbind : String → String
unfolding replace_all trim_space
cpe_unbind s =
    if s == "" || (s == "*" || s == "-")
    then ""
    else trim_space (replace_all (replace_all (replace_all s "\\:" ":") "\\" "") "_" " ")

-- The parts of a name after its version prefix; those after the version are not read.
unfoldable pub cpe_product : List String → Option AffectedProduct
unfolding cpe_unbind
cpe_product (part ∷ vendor ∷ product ∷ others) =
    let version : String = elim others [ [] ↦ "" | version ∷ rest ↦ cpe_unbind version ] in
    if cpe_unbind vendor == "" || cpe_unbind product == ""
    then none
    else some (record {
      vendor = cpe_unbind vendor;
      product = cpe_unbind product;
      version_start = version;
      version_end = version;
      version_scheme = "";
    })
cpe_product fields = none

unfoldable pub parse_cpe : String → Option AffectedProduct
unfolding cpe_product to_lower trim_space has_prefix trim_prefix split
parse_cpe cpe =
    let s = trim_space (to_lower cpe) in
    if has_prefix s "cpe:2.3:"
    then cpe_product (split (trim_prefix s "cpe:2.3:") b':')
    else if has_prefix s "cpe:/"
    then cpe_product (split (trim_prefix s "cpe:/") b':')
    else none

cpe_tests :
    (parse_cpe "cpe:2.3:a:OpenSSL:openssl:3.0.5:*:*:*:*:*:*:*"
      ≡ some (record {
        vendor = "openssl";
        product = "openssl";
        version_start = "3.0.5";
        version_end = "3.0.5";
        version_scheme = "";
      }))
    × (parse_cpe "cpe:/a:apache:http_server"
        ≡ some (record {
          vendor = "apache";
          product = "http server";
          version_start = "";
          version_end = "";
          version_scheme = "";
        }))
    × (parse_cpe "cpe:/a:*:openssl" ≡ none)
    × (parse_cpe "openssl" ≡ none)
unfolding parse_cpe
cpe_tests = (refl, refl, refl, refl)
