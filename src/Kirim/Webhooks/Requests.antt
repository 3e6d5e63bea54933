-- ===== src/Kirim/Webhooks/Requests.antt =====
-- `deliver` of apps/api/src/modules/kirim/webhooks.ts: the address, the secret and the request to an application.
use sq_hub.Common.{
  ℕ, String, Option, none, some, List, [], ◌∷◌, Bool, true, false, not, ◌&&◌, ◌||◌, length, leb,
  ◌==◌, str_eq, if◌then◌else◌, Result, ok, err,
}
use sq_hub.Common.Text.{codes, is_digit}

pub record Url : Type 0 where
  pub protocol : String
  pub username : String
  pub password : String
  pub hostname : String
  pub port : String
  pub hash : String

-- `[a-z0-9]`
abbrev pub is_label_end : ℕ → Bool
is_label_end c = is_digit c || (leb b'a' c && leb c b'z')

abbrev pub ends_label : List ℕ → Bool
ends_label [] = true
ends_label (c ∷ []) = is_label_end c
ends_label (c ∷ d ∷ cs) = let rest = ends_label (d ∷ cs) in (is_label_end c || (c == b'-')) && rest

-- `^[a-z0-9]([a-z0-9-]{0,61}[a-z0-9])?$`
abbrev pub is_label : List ℕ → Bool
is_label [] = false
is_label (c ∷ cs) = is_label_end c && (ends_label cs && leb (length cs) 62)

abbrev pub before_dot : List ℕ → List ℕ
before_dot [] = []
before_dot (c ∷ cs) = let rest = before_dot cs in if c == b'.' then [] else c ∷ rest

abbrev pub after_dot : List ℕ → Option (List ℕ)
after_dot [] = none
after_dot (c ∷ cs) = let rest = after_dot cs in if c == b'.' then some cs else rest

abbrev pub equal_codes : List ℕ → List ℕ → Bool
equal_codes [] [] = true
equal_codes [] (d ∷ ds) = false
equal_codes (c ∷ cs) [] = false
equal_codes (c ∷ cs) (d ∷ ds) = let rest = equal_codes cs ds in (c == d) && rest

abbrev pub is_own_host : String → Bool
is_own_host hostname = is_label (before_dot (codes hostname)) && elim (after_dot (codes hostname)) [
  | none ↦ false
  | some rest ↦ equal_codes rest (codes "sabilulquran.or.id")
]

abbrev pub is_allowed_url : Url → Bool
is_allowed_url url =
    if not (str_eq url.username "") || (not (str_eq url.password "") || not (str_eq url.hash ""))
    then false
    else if str_eq url.protocol "http:"
    then str_eq url.hostname "127.0.0.1" && not (str_eq url.port "")
    else if str_eq url.protocol "https:"
    then is_own_host url.hostname
    else false

abbrev pub is_allowed_webhook_url : (String → Option Url) → String → Bool
is_allowed_webhook_url parse value = elim (parse value) [
  | none ↦ false
  | some url ↦ is_allowed_url url
]

abbrev pub nonempty : Option String → Option String
nonempty none = none
nonempty (some t) = if str_eq t "" then none else some t

pub record WebhookConsumer : Type 0 where
  pub id : String
  pub webhook_url : Option String
  pub webhook_secret_ref : Option String
  pub webhook_secret_enc : Option String

-- KirimCryptoError, which an envelope that cannot be opened throws
pub data CryptoError : Type 0 where
  not_opened : CryptoError

-- the encrypted secret, else the one that the reference names in the environment
unfoldable pub resolve_webhook_secret :
    (String → Result CryptoError String)
    → (String → Option String)
    → WebhookConsumer
    → Result CryptoError (Option String)
resolve_webhook_secret open' env c = elim (nonempty c.webhook_secret_enc) [
  | some enc ↦ elim (open' enc) [ err e ↦ err e | ok secret ↦ ok (some secret) ]
  | none ↦ elim (nonempty c.webhook_secret_ref) [
    | none ↦ ok none
    | some ref ↦ ok (nonempty (env ref))
  ]
]

-- the address and the secret that `deliver` sends with, none where one is missing or the address is refused
abbrev pub target_of :
    (String → Option Url) → WebhookConsumer → Option String → Option (String × String)
target_of parse c secret = elim (nonempty c.webhook_url) [
  | none ↦ none
  | some url ↦ elim (nonempty secret) [
    | none ↦ none
    | some key ↦ if is_allowed_webhook_url parse url then some (url, key) else none
  ]
]

-- the transport, given the address, the secret that signs and the body, answers none where it throws
abbrev pub send_body :
    (String → String → String → Option ℕ)
    → String × String
    → Result CryptoError String
    → Result CryptoError (Option ℕ)
send_body transport (url, key) (err e) = err e
send_body transport (url, key) (ok body) = ok (transport url key body)

-- `deliver`: the status of the response, none where nothing is sent or the transport throws; the openings of the
-- secret and of the payload stand outside its try, so that an error of theirs leaves it
unfoldable pub deliver :
    (String → Option Url)
    → (String → Option String)
    → (String → Result CryptoError String)
    → (String → Result CryptoError String)
    → (String → String → String → Option ℕ)
    → WebhookConsumer
    → String
    → Result CryptoError (Option ℕ)
unfolding resolve_webhook_secret
deliver parse env open_secret open_payload transport c payload_enc =
    elim (resolve_webhook_secret open_secret env c) [
      | err e ↦ err e
      | ok secret ↦ elim (target_of parse c secret) [
        | none ↦ ok none
        | some t ↦ send_body transport t (open_payload payload_enc)
      ]
    ]
