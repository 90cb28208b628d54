-- ===== src/Matching/Aliases.antt =====
-- The vendor and product names that internal/match/cve_matcher.go maps to one spelling.
use threat_intel_arbiter.Common.{List, [], ◌∷◌, String}

unfoldable pub default_aliases : List (String × String)
default_aliases =
    ("apache software foundation", "apache")
    ∷ ("the apache software foundation", "apache")
    ∷ ("httpd", "apache http server")
    ∷ ("microsoft corporation", "microsoft")
    ∷ ("microsoft corp", "microsoft")
    ∷ ("ms", "microsoft")
    ∷ ("red hat", "red hat")
    ∷ ("redhat", "red hat")
    ∷ ("canonical", "canonical")
    ∷ ("atlassian", "atlassian")
    ∷ ("atlassian pty ltd", "atlassian")
    ∷ ("sap ag", "sap")
    ∷ ("sap se", "sap")
    ∷ ("siemens ag", "siemens")
    ∷ ("siemens", "siemens")
    ∷ []

unfoldable pub default_product_aliases : List (String × String)
default_product_aliases =
    ("httpd", "apache http server")
    ∷ ("apache2", "apache http server")
    ∷ ("apache httpd", "apache http server")
    ∷ ("microsoft windows", "windows server")
    ∷ ("windows", "windows server")
    ∷ ("windows 10", "windows server")
    ∷ ("windows 11", "windows server")
    ∷ ("sap netweaver", "sap s/4hana")
    ∷ ("netweaver", "sap s/4hana")
    ∷ []
