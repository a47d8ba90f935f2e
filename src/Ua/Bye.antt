-- ===== src/Ua/Bye.antt =====
-- ua.go: what a BYE does to the dialogs.
use gb.Base.{ℕ, ◌≡◌, ◌≢◌, ◌⊎◌}
use gb.Base.{Bool, true, false, Option, none, some, List, [], ◌∷◌}
use gb.Base.{if◌then◌else◌}
use gb.Base.{pos}
use gb.Base.{Bytes, bytes_eq}
use gb.Header.Address.{Address}
use gb.Message
use gb.Message.{Method, Request, Response, Message, request, response, Addr, new_request}
use gb.Dialog.State.{Dialog, terminated, dialog_key, id, update_from_request, terminate, tag_of}
use gb.Dialog.Index.{Manager, find, remove, change}
use gb.Ua.Inbound.{Callbacks, Effect, respond, call_bye, Step, is_stale, dialog_source_allowed}

-- the key under which findDialog looks
abbrev pub request_key : Request → Bytes
request_key req =
    dialog_key (Message.call_id req.headers) (tag_of (Message.to req.headers))
      (tag_of (Message.from req.headers))

-- Every dialog of the index stands under its current names.
abbrev pub IsIndexed : Manager → Type 0
IsIndexed m = (k : Bytes) (r : ℕ) → find k m.index ≡ some r → id (m.dialogs r) ≡ k

abbrev learnt : Request → Manager → ℕ → Manager
learnt req m r = change r (update_from_request req) m

Found : Request → Manager → Manager × Option ℕ → Type 0
Found req m (m', none) = m' ≡ m
Found req m (m', some r) = (find (request_key req) m.index ≡ some r) × (m' ≡ learnt req m r)

module _ (same_ip : Bytes → Bytes → Bool) (req : Request) (src : Addr) (m : Manager) where
  -- A BYE that ends a dialog.
  abbrev pub IsEnding : Manager → ℕ → Type 0
  IsEnding m' r =
      (find (request_key req) m.index ≡ some r)
      × (dialog_source_allowed same_ip (m.dialogs r) src ≡ true)
      × (is_stale (Message.cseq req.headers) (m.dialogs r).remote_seq ≡ false)
      × ((m'.dialogs r).state ≡ terminated)
      × ((k : Bytes)
          → find k m'.index ≡ (if bytes_eq (request_key req) k then none else find k m.index))

  -- A BYE that ends none.
  abbrev pub IsRefused : Manager → Type 0
  IsRefused m' = (m'.index ≡ m.index) × ((r : ℕ) → (m'.dialogs r).state ≡ (m.dialogs r).state)

  -- What the user hears of the end of a dialog.
  abbrev pub IsTold : Callbacks → ℕ → List Effect → Type 0
  IsTold cb r calls =
      ((cb.on_bye ≡ true) × (calls ≡ call_bye r ∷ [])) ⊎ ((cb.on_bye ≡ false) × (calls ≡ []))

  -- What a BYE comes to, by the effects.
  abbrev pub IsAnswered : Callbacks → Step → Type 0
  IsAnswered cb (m', respond resp ∷ calls) =
      ((resp.status_code ≡ pos 200) × ((r : ℕ) × IsEnding m' r × IsTold cb r calls))
      ⊎ ((resp.status_code ≢ pos 200) × (calls ≡ []) × IsRefused m')
  IsAnswered cb _ = ⊥

  abbrev ended : ℕ → Manager
  ended r = remove r (change r terminate (learnt req m r))
