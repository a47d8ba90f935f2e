-- ===== src/Dialog/Index.antt =====
-- dialog.go: DialogManager. A dialog is shared: the index holds references into a store, and a
-- dialog that changes keeps the key under which it was added.
use gb.Base.{ℕ, ◌≡◌, refl, sym, ap, ◌∙◌, ◌≢◌, inl, inr}
use gb.Base.{false, Option, none, some, List, [], ◌∷◌, ◌++◌, append_assoc, arith}
use gb.Base.{◌==◌, if◌then◌else◌, ==_iff, Bool-cases}
use gb.Base.{length, is_nil}
use gb.Base.{Bytes, bytes_eq, bytes_eq_iff}
use gb.Message
use gb.Message.{
  Method, Request, Response, Message, request, response, Addr, new_request, new_response,
}
use gb.Dialog.State.{Dialog, dialog_key, id, update_from_response, tag_of}

pub record Manager : Type 0 where
  pub dialogs : ℕ → Dialog
  pub index : List (Bytes × ℕ)

unfoldable pub put : Bytes → ℕ → List (Bytes × ℕ) → List (Bytes × ℕ)
put k r [] = (k, r) ∷ []
put k r ((j, q) ∷ m) = if bytes_eq j k then (k, r) ∷ m else (j, q) ∷ put k r m

unfoldable pub find : Bytes → List (Bytes × ℕ) → Option ℕ
find k [] = none
find k ((j, q) ∷ m) = if bytes_eq j k then some q else find k m

unfoldable pub erase : Bytes → List (Bytes × ℕ) → List (Bytes × ℕ)
erase k [] = []
erase k ((j, q) ∷ m) = if bytes_eq j k then erase k m else (j, q) ∷ erase k m

unfoldable pub add : ℕ → Manager → Manager
add r m = record m { index = put (id (m.dialogs r)) r m.index }

unfoldable pub get : Bytes → Bytes → Bytes → Manager → Option ℕ
get call_id local_tag remote_tag m = find (dialog_key call_id local_tag remote_tag) m.index

unfoldable pub remove : ℕ → Manager → Manager
remove r m = record m { index = erase (id (m.dialogs r)) m.index }

unfoldable pub len : Manager → ℕ
len m = length m.index

-- a write through the pointer `r`
unfoldable pub change : ℕ → (Dialog → Dialog) → Manager → Manager
change r f m = record m { dialogs = λ q. if q == r then f (m.dialogs q) else m.dialogs q }

pub find-put :
    (k j : Bytes) (r : ℕ) (m : List (Bytes × ℕ))
    → find j (put k r m) ≡ (if bytes_eq k j then some r else find j m)
unfolding find put
find-put k j r [] = refl
find-put k j r ((i, q) ∷ m) =
    ground (arith, bytes_eq_iff i k, bytes_eq_iff i j, bytes_eq_iff k j, find-put k j r m)

-- Get finds the dialog that was added last under its three names, and Add hides no other.
pub get-add :
    (r : ℕ) (m : Manager) (call_id local_tag remote_tag : Bytes)
    → get call_id local_tag remote_tag (add r m) ≡ (
        if bytes_eq (id (m.dialogs r)) (dialog_key call_id local_tag remote_tag)
        then some r
        else get call_id local_tag remote_tag m)
unfolding get add
get-add r m call_id local_tag remote_tag = find-put _ _ r m.index

pub find-erase :
    (k j : Bytes) (m : List (Bytes × ℕ))
    → find j (erase k m) ≡ (if bytes_eq k j then none else find j m)
unfolding find erase
find-erase k j [] = ground arith
find-erase k j ((i, q) ∷ m) =
    ground (arith, bytes_eq_iff i k, bytes_eq_iff i j, bytes_eq_iff k j, find-erase k j m)

-- Remove drops the dialog's current names and no others.
pub get-remove :
    (r : ℕ) (m : Manager) (call_id local_tag remote_tag : Bytes)
    → get call_id local_tag remote_tag (remove r m) ≡ (
        if bytes_eq (id (m.dialogs r)) (dialog_key call_id local_tag remote_tag)
        then none
        else get call_id local_tag remote_tag m)
unfolding get remove
get-remove r m call_id local_tag remote_tag = find-erase _ _ m.index

erase_absent : (k : Bytes) (m : List (Bytes × ℕ)) → find k m ≡ none → erase k m ≡ m
unfolding find erase
erase_absent k [] e = refl
erase_absent k ((i, q) ∷ m) e = ground (arith, erase_absent k m)

pub find-change :
    (r : ℕ) (f : Dialog → Dialog) (m : Manager) → (change r f m).dialogs r ≡ f (m.dialogs r)
unfolding change
find-change r f m = rw ((==_iff r r).1 refl)

append_cancel : (xs : Bytes) {ys zs : Bytes} → xs ++ ys ≡ xs ++ zs → ys ≡ zs
append_cancel [] e = e
append_cancel (x ∷ xs) {ys} {zs} e = append_cancel xs (tails e)
  where
    tails : x ∷ (xs ++ ys) ≡ x ∷ (xs ++ zs) → xs ++ ys ≡ xs ++ zs
    tails q = cc

dialog_key_inj : (c l : Bytes) {s t : Bytes} → dialog_key c l s ≡ dialog_key c l t → s ≡ t
unfolding dialog_key
dialog_key_inj c l {s} {t} e =
    append_cancel (c ++ (b';' ∷ (l ++ (b';' ∷ [])))) (regroup s ∙ e ∙ sym (regroup t))
  where
    regroup :
        (u : Bytes) → (c ++ (b';' ∷ (l ++ (b';' ∷ [])))) ++ u ≡ c ++ (b';' ∷ (l ++ (b';' ∷ u)))
    regroup u = simp append_assoc

id-retagged :
    (resp : Response) (d : Dialog)
    → is_nil (tag_of (Message.to resp.headers)) ≡ false
    → tag_of (Message.to resp.headers) ≢ d.remote_tag
    → bytes_eq (id d) (id (update_from_response resp d)) ≡ false
unfolding id update_from_response
id-retagged resp d n ne =
    rw n
      (elim (Bool-cases (
        bytes_eq (dialog_key d.call_id d.local_tag d.remote_tag)
          (dialog_key d.call_id d.local_tag (tag_of (Message.to resp.headers))))) [
            | inl same ↦
                absurd (ne (sym (dialog_key_inj d.call_id d.local_tag ((bytes_eq_iff _ _).0 same))))
            | inr apart ↦ apart
          ])

-- A dialog that was added before its response brought a To tag takes new names, under which the
-- index does not have it: Get does not find it by them, Remove leaves the index as it is, and the
-- entry under its old names stays.
pub retagged_is_lost :
    (r : ℕ) (resp : Response) (m : Manager)
    → is_nil (tag_of (Message.to resp.headers)) ≡ false
    → tag_of (Message.to resp.headers) ≢ (m.dialogs r).remote_tag
    → find (id (update_from_response resp (m.dialogs r))) m.index ≡ none
    → let m' = change r (update_from_response resp) (add r m) in
      (find (id (m'.dialogs r)) m'.index ≡ none)
      × ((remove r m').index ≡ m'.index)
      × (find (id (m.dialogs r)) (remove r m').index ≡ some r)
unfolding remove add change
retagged_is_lost r resp m n ne absent =
    rw changed (gone, kept, ap (find (id (m.dialogs r))) kept ∙ there)
  where
    f : Dialog → Dialog
    f = update_from_response resp

    changed : (change r f (add r m)).dialogs r ≡ f (m.dialogs r)
    changed = find-change r f (add r m)

    gone : find (id (f (m.dialogs r))) (put (id (m.dialogs r)) r m.index) ≡ none
    gone = find-put _ _ r m.index ∙ rw (id-retagged resp (m.dialogs r) n ne) absent

    kept :
        erase (id (f (m.dialogs r))) (put (id (m.dialogs r)) r m.index)
        ≡ put (id (m.dialogs r)) r m.index
    kept = erase_absent _ _ gone

    there : find (id (m.dialogs r)) (put (id (m.dialogs r)) r m.index) ≡ some r
    there =
        find-put _ _ r m.index ∙ rw ((bytes_eq_iff (id (m.dialogs r)) (id (m.dialogs r))).1 refl)
