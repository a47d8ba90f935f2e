-- ===== src/Gb28181/Registry.antt =====
-- gb28181/platform.go: who is registered, and where the platform reaches it.
use gb.Base.{ℕ, ◌≡◌, refl, sym, ap, ◌∙◌, subst, ◌⊎◌, inl, inr}
use gb.Base.{Bool, true, false, not, ◌||◌, Option, none, some, List, [], ◌∷◌}
use gb.Base.{if◌then◌else◌, Bool-cases}
use gb.Base.{pos}
use gb.Base.{Bytes, bytes_eq, bytes_eq_iff}
use gb.Header.Address.{Address}
use gb.Header.Auth.{Auth}
use gb.Message
use gb.Message.{
  Method, Request, Response, Message, request, response, Addr, new_request, new_response,
}
use gb.Gb28181.Xml
use gb.Gb28181.Xml.{Codec, Envelope, cmd_catalog}
use gb.Gb28181.Platform.{
  Config, Platform, Effect, respond, event, registered_event, new_platform, find_device,
  with_device, register_device, challenge_device, see_device, challenge, expected, check_by,
  check_register, credentials_of, is_incomplete, register_from, register_by, on_register,
  learn_catalog, message_from, message_by, on_message, is_registered, resolve_device,
  last_register_of, via_addr, device_addr,
}
use gb.Gb28181.Devices.{find_device-update, is_registered-update, is_registered-register}

module _ (md5 : Bytes → Bytes) (quote : Bytes → Bytes) (cfg : Config) (x : Codec) where
  -- The REGISTER names the device, the platform knows a password of it, and the response of the
  -- credentials is the digest that this password gives.
  pub record IsProof (j : Bytes) (req : Request) : Type 0 where
    pub sender : Address
    pub password : Bytes
    pub is_from : Message.from req.headers ≡ some sender
    pub is_user : sender.uri.user ≡ j
    pub is_known : cfg.password j ≡ some password
    pub is_sum :
        (credentials_of req).response ≡ expected md5 quote cfg password (credentials_of req)

  -- what the platform is handed: a REGISTER or a MESSAGE, with the clock and a random text
  pub data Input : Type 0 where
    registers : ℕ → Bytes → Request → Input
    messages : ℕ → Request → Input

  abbrev pub handle : Input → Platform → Platform
  handle (registers now fresh req) p = (on_register md5 quote cfg now fresh req p).0
  handle (messages now req) p = (on_message x now req p).0

  unfoldable pub run : List Input → Platform → Platform
  run [] p = p
  run (i ∷ is) p = run is (handle i p)

  abbrev pub IsProven : Bytes → List Input → Type 0
  IsProven j [] = ⊥
  IsProven j (registers now fresh req ∷ is) = IsProof j req ⊎ IsProven j is
  IsProven j (messages now req ∷ is) = IsProven j is

  catalog-devices :
      (k : Bytes) (e : Envelope) (p : Platform) → (learn_catalog k e p).devices ≡ p.devices
  unfolding learn_catalog
  catalog-devices k e p = elim (Bool-cases (bytes_eq e.cmd_type cmd_catalog)) [
    | inl catalog ↦ rw catalog refl
    | inr other ↦ rw other refl
  ]

  message_by-registered :
      (j : Bytes) (now : ℕ) (p : Platform) (from : Option Address) (o : Option Envelope)
      → is_registered j (message_by now from p o).0.devices ≡ is_registered j p.devices
  unfolding message_from
  message_by-registered j now p from none = refl
  message_by-registered j now p none (some e) = refl
  message_by-registered j now p (some from) (some e) =
      ap (is_registered j)
        (catalog-devices from.uri.user e (with_device from.uri.user (see_device now) p))
      ∙ is_registered-update j from.uri.user (see_device now) p.devices (λ d. refl) (λ d. refl)

  on_message-registered :
      (j : Bytes) (now : ℕ) (req : Request) (p : Platform)
      → is_registered j (on_message x now req p).0.devices ≡ is_registered j p.devices
  unfolding on_message
  on_message-registered j now req p =
      message_by-registered j now p (Message.from req.headers) (gb.Gb28181.Xml.parse x req.body)

  -- What registers a device: the credentials name it, with the digest of its password.
  abbrev IsChecked : Bytes → Bytes → Auth → Type 0
  IsChecked j k auth =
      (k ≡ j)
      × (password : Bytes) × (cfg.password k ≡ some password)
      × (auth.response ≡ expected md5 quote cfg password auth)

  check_by-registered :
      (j k : Bytes) (now : ℕ) (auth : Auth) (p : Platform) (o : Option Bytes)
      → cfg.password k ≡ o
      → is_registered j (check_by md5 quote cfg now k auth p o).0.devices ≡ true
      → (is_registered j p.devices ≡ true) ⊎ IsChecked j k auth
  check_by-registered j k now auth p none e h = inl (unfold check_by in h)
  check_by-registered j k now auth p (some password) e h =
      by_sum (bytes_eq (expected md5 quote cfg password auth) auth.response) refl
        (unfold check_by in h)
    where
      by_name :
          (b : Bool)
          → bytes_eq k j ≡ b
          → expected md5 quote cfg password auth ≡ auth.response
          → b || is_registered j p.devices ≡ true
          → (is_registered j p.devices ≡ true) ⊎ IsChecked j k auth
      by_name true q s h = inr ((bytes_eq_iff k j).0 q, password, e, sym s)
      by_name false q s h = inl h

      by_sum :
          (b : Bool)
          → bytes_eq (expected md5 quote cfg password auth) auth.response ≡ b
          → is_registered j
              (if◌then◌else◌ {A = Platform × List Effect}
                (not b)
                (p, respond (new_response (pos 401) []) ∷ [])
                (
                  with_device k (register_device now) p,
                  respond (new_response (pos 200) []) ∷ event (registered_event k) ∷ [],
                )).0.devices
            ≡ true
          → (is_registered j p.devices ≡ true) ⊎ IsChecked j k auth
      by_sum false q h = inl h
      by_sum true q h =
          by_name (bytes_eq k j) refl ((bytes_eq_iff _ _).0 q)
            (sym (is_registered-register j k now p.devices) ∙ h)

  register_by-registered :
      (j : Bytes) (now : ℕ) (fresh : Bytes) (req : Request) (p : Platform) (from : Option Address)
      → Message.from req.headers ≡ from
      → is_registered j (register_by md5 quote cfg now fresh req p from).0.devices ≡ true
      → (is_registered j p.devices ≡ true) ⊎ IsProof j req
  register_by-registered j now fresh req p none e h = inl h
  register_by-registered j now fresh req p (some from) e h =
      by_auth (is_incomplete (credentials_of req)) (unfold register_from in h)
    where
      proof : IsChecked j from.uri.user (credentials_of req) → IsProof j req
      proof c = record {
        sender = from;
        password = c.1;
        is_from = e;
        is_user = c.0;
        is_known = subst (λ i. cfg.password i ≡ some c.1) c.0 c.2;
        is_sum = c.3;
      }

      checked :
          (is_registered j p.devices ≡ true) ⊎ IsChecked j from.uri.user (credentials_of req)
          → (is_registered j p.devices ≡ true) ⊎ IsProof j req
      checked (inl known) = inl known
      checked (inr c) = inr (proof c)

      by_auth :
          (b : Bool)
          → is_registered j
              (if b
                then (
                  with_device from.uri.user (challenge_device fresh req) p,
                  respond (challenge md5 quote cfg fresh) ∷ [],
                )
                else check_register md5 quote cfg now from.uri.user
                    (credentials_of req)
                    p).0.devices
            ≡ true
          → (is_registered j p.devices ≡ true) ⊎ IsProof j req
      by_auth true h = inl (
          sym (
            is_registered-update j from.uri.user (challenge_device fresh req) p.devices (λ d. refl)
              (λ d. refl))
          ∙ h)
      by_auth false h = checked (
          check_by-registered j from.uri.user now (credentials_of req) p _ refl
            (unfold check_register in h))

  handle-registered :
      (j : Bytes) (i : Input) (is : List Input) (p : Platform)
      → (is_registered j (handle i p).devices ≡ true) ⊎ IsProven j is
      → (is_registered j p.devices ≡ true) ⊎ IsProven j (i ∷ is)
  handle-registered j (messages now req) is p (inr later) = inr later
  handle-registered j (messages now req) is p (inl h) =
      inl (sym (on_message-registered j now req p) ∙ h)
  handle-registered j (registers now fresh req) is p (inr later) = inr (inr later)
  handle-registered j (registers now fresh req) is p (inl h) =
      first (register_by-registered j now fresh req p _ refl (unfold on_register in h))
    where
      first :
          (is_registered j p.devices ≡ true) ⊎ IsProof j req
          → (is_registered j p.devices ≡ true) ⊎ (IsProof j req ⊎ IsProven j is)
      first (inl known) = inl known
      first (inr proof) = inr (inl proof)

  run-registered :
      (j : Bytes) (is : List Input) (p : Platform)
      → is_registered j (run is p).devices ≡ true
      → (is_registered j p.devices ≡ true) ⊎ IsProven j is
  unfolding run
  run-registered j [] p h = inl h
  run-registered j (i ∷ is) p h = handle-registered j i is p (run-registered j is (handle i p) h)

  none_registered : (j : Bytes) → is_registered j new_platform.devices ≡ true → ⊥
  unfolding is_registered find_device
  none_registered j e = cc

  -- A device that the platform holds for registered, after any sequence of REGISTERs and
  -- MESSAGEs, was registered by one of the REGISTERs: its From names the device, the platform
  -- knows a password of it, and its credentials carry the digest of this password.
  pub run-IsProven :
      (j : Bytes) (is : List Input)
      → is_registered j (run is new_platform).devices ≡ true
      → IsProven j is
  run-IsProven j is h = from_empty (run-registered j is new_platform h)
    where
      from_empty : (is_registered j new_platform.devices ≡ true) ⊎ IsProven j is → IsProven j is
      from_empty (inl known) = absurd (none_registered j known)
      from_empty (inr proven) = proven

  module _ (now : ℕ) (fresh : Bytes) (req : Request) (p : Platform) (from : Address) where
    abbrev challenged : Platform
    challenged = with_device from.uri.user (challenge_device fresh req) p

    challenged-last_register : last_register_of from.uri.user challenged ≡ some req
    unfolding last_register_of
    challenged-last_register =
        rw
          (
            find_device-update from.uri.user from.uri.user (challenge_device fresh req) p.devices
                (λ d. refl),
            (bytes_eq_iff from.uri.user from.uri.user).1 refl,
          )
          refl

    challenged-registered :
        is_registered from.uri.user p.devices ≡ true
        → is_registered from.uri.user challenged.devices ≡ true
    challenged-registered on =
        is_registered-update from.uri.user from.uri.user (challenge_device fresh req) p.devices
          (λ d. refl) (λ d. refl)
        ∙ on

    challenged-device_addr :
        is_registered from.uri.user p.devices ≡ true
        → device_addr from.uri.user challenged ≡ via_addr (Message.via req.headers)
    unfolding device_addr resolve_device
    challenged-device_addr on = rw (challenged-registered on, challenged-last_register) refl

    -- A REGISTER without credentials that names a registered device gets one response, a 401, and
    -- leaves the device registered; but in the state after it, the address that the platform has
    -- for the device is the one that the Via of this REGISTER says.
    pub on_register_redirects :
        Message.from req.headers ≡ some from
        → is_incomplete (credentials_of req) ≡ true
        → is_registered from.uri.user p.devices ≡ true
        → let out = on_register md5 quote cfg now fresh req p in
          ((resp : Response) × (out.1 ≡ respond resp ∷ []) × (resp.status_code ≡ pos 401))
          × (is_registered from.uri.user out.0.devices ≡ true)
          × (device_addr from.uri.user out.0 ≡ via_addr (Message.via req.headers))
    unfolding on_register register_from
    on_register_redirects is_from bare on =
        rw (is_from, bare)
          (
            (challenge md5 quote cfg fresh, refl, unfold challenge in unfold new_response in refl),
            challenged-registered on,
            challenged-device_addr on,
          )
