-- ===== src/Contracts/Subdomains.antt =====
-- packages/contracts/src/subdomains.js: the labels of the platform's subdomains, as UTF-16 text.
pub mod Shape
use hello_deploy.Prelude.{
  ℕ, ◌+◌, Bool, true, false, ◌&&◌, ◌||◌, not, leb, ◌==◌, if◌then◌else◌, List, [], ◌∷◌, ◌++◌, any,
  all, length, take, includes, ℕ_eq, String, Text, codes, text_eq, is_lower, is_upper, is_digit,
}

abbrev reserved_subdomains : List String
reserved_subdomains =
    "www" ∷ "api" ∷ "admin" ∷ "app" ∷ "apps" ∷ "dashboard" ∷ "console" ∷ "panel" ∷ "portal"
    ∷ "login" ∷ "auth" ∷ "signup" ∷ "register" ∷ "logout" ∷ "oauth" ∷ "sso" ∷ "saml" ∷ "hellodeploy"
    ∷ "hello" ∷ "platform" ∷ "deploy" ∷ "deployments" ∷ "ns" ∷ "ns1" ∷ "ns2" ∷ "dns" ∷ "dns1"
    ∷ "dns2" ∷ "mx" ∷ "mx1" ∷ "mx2" ∷ "mail" ∷ "smtp" ∷ "imap" ∷ "pop" ∷ "pop3" ∷ "ftp" ∷ "sftp"
    ∷ "ssh" ∷ "vpn" ∷ "proxy" ∷ "relay" ∷ "gateway" ∷ "cdn" ∷ "static" ∷ "assets" ∷ "media"
    ∷ "files" ∷ "uploads" ∷ "downloads" ∷ "dev" ∷ "develop" ∷ "development" ∷ "staging" ∷ "stage"
    ∷ "test" ∷ "testing" ∷ "beta" ∷ "alpha" ∷ "preview" ∷ "demo" ∷ "sandbox" ∷ "qa" ∷ "uat"
    ∷ "status" ∷ "health" ∷ "metrics" ∷ "monitor" ∷ "monitoring" ∷ "logs" ∷ "logging" ∷ "alerts"
    ∷ "alerting" ∷ "grafana" ∷ "prometheus" ∷ "kibana" ∷ "splunk" ∷ "ops" ∷ "devops" ∷ "sre" ∷ "git"
    ∷ "github" ∷ "gitlab" ∷ "bitbucket" ∷ "webhook" ∷ "webhooks" ∷ "hooks" ∷ "ci" ∷ "cd"
    ∷ "pipeline" ∷ "registry" ∷ "docker" ∷ "containers" ∷ "docs" ∷ "documentation" ∷ "help"
    ∷ "support" ∷ "blog" ∷ "news" ∷ "landing" ∷ "marketing" ∷ "jobs" ∷ "careers" ∷ "about"
    ∷ "contact" ∷ "legal" ∷ "privacy" ∷ "terms" ∷ "tos" ∷ "localhost" ∷ "local" ∷ "internal"
    ∷ "intranet" ∷ "loopback" ∷ "broadcasthost" ∷ "ip6-localhost" ∷ "ip6-loopback" ∷ "ip6-localnet"
    ∷ "account" ∷ "accounts" ∷ "billing" ∷ "payment" ∷ "payments" ∷ "store" ∷ "shop" ∷ "marketplace"
    ∷ "exchange" ∷ []

-- `[a-z0-9]`
abbrev pub is_alphanumeric : ℕ → Bool
is_alphanumeric c = is_lower c || is_digit c

-- `toLowerCase`, as far as the patterns below can tell: a letter beyond ASCII becomes none of
-- `[a-z0-9]`, but for the Kelvin sign and the capital I with a dot.
abbrev lower_unit : ℕ → Text
lower_unit c =
    if is_upper c
    then (c + 32) ∷ []
    else if c == 8490
    then b'k' ∷ []
    else if c == 304
    then b'i' ∷ 775 ∷ []
    else c ∷ []

unfoldable pub to_lower_case : Text → Text
to_lower_case [] = []
to_lower_case (c ∷ cs) = lower_unit c ++ to_lower_case cs

-- What `trim` removes.
abbrev is_space : ℕ → Bool
is_space c =
    (leb 9 c && leb c 13)
    || (leb 8192 c && leb c 8202)
    || includes (32 ∷ 160 ∷ 5760 ∷ 8232 ∷ 8233 ∷ 8239 ∷ 8287 ∷ 12288 ∷ 65279 ∷ []) c

unfoldable pub trim_start : Text → Text
trim_start [] = []
trim_start (c ∷ cs) = let rest = trim_start cs in if is_space c then rest else c ∷ cs

unfoldable pub trim_end : Text → Text
trim_end [] = []
trim_end (c ∷ cs) = let rest = trim_end cs in if is_space c && text_eq rest [] then [] else c ∷ rest

-- `.replace(/[^a-z0-9]+/g, '-')`, by whether the character before was replaced.
unfoldable pub hyphenate : Bool → Text → Text
hyphenate replaced [] = []
hyphenate replaced (c ∷ cs) =
    let kept = hyphenate false cs in
    let rest = hyphenate true cs in
    if is_alphanumeric c then c ∷ kept else if replaced then rest else b'-' ∷ rest

-- `.replace(/^-+|-+$/g, '')`
unfoldable pub strip_start : Text → Text
strip_start [] = []
strip_start (c ∷ cs) = let rest = strip_start cs in if c == b'-' then rest else c ∷ cs

unfoldable pub strip_end : Text → Text
strip_end [] = []
strip_end (c ∷ cs) =
    let rest = strip_end cs in if c == b'-' && text_eq rest [] then [] else c ∷ rest

-- `normalizeSubdomainLabel`
unfoldable pub normalize_subdomain_label : Text → Text
normalize_subdomain_label value =
    take 63
      (strip_end (strip_start (hyphenate false (to_lower_case (trim_end (trim_start value))))))

unfoldable pub is_reserved_subdomain : Text → Bool
is_reserved_subdomain label =
    any (λ word. text_eq (codes word) (to_lower_case label)) reserved_subdomains

abbrev pub is_label_character : ℕ → Bool
is_label_character c = is_alphanumeric c || c == b'-'

abbrev pub starts_well : Text → Bool
starts_well [] = false
starts_well (c ∷ cs) = is_alphanumeric c

-- Label characters, the last one a letter or a digit.
unfoldable pub ends_well : Text → Bool
ends_well [] = true
ends_well (c ∷ []) = is_alphanumeric c
ends_well (c ∷ d ∷ ds) = is_label_character c && ends_well (d ∷ ds)

-- `isValidSubdomainLabel`
unfoldable pub is_valid_subdomain_label : Text → Bool
is_valid_subdomain_label label = leb (length label) 63 && starts_well label && ends_well label
