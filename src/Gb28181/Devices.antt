-- ===== src/Gb28181/Devices.antt =====
-- gb28181/platform.go: the platform's table of devices, under a write to one of them.
use gb.Base.{ℕ, ◌≡◌, refl, sym, ap, ◌∙◌, inl, inr}
use gb.Base.{Bool, true, false, ◌||◌, Option, none, some, List, [], ◌∷◌, arith}
use gb.Base.{if◌then◌else◌, Bool-cases, get_or}
use gb.Base.{Bytes, bytes_eq, bytes_eq_iff}
use gb.Gb28181.Platform.{
  DeviceStatus, new_device, find_device, update_device, register_device, registered_of,
  is_registered,
}

-- A write to a device that keeps its ID.
abbrev pub IsUpdate : (DeviceStatus → DeviceStatus) → Type 0
IsUpdate f = (d : DeviceStatus) → (f d).id ≡ d.id

pub find_device-update :
    (j k : Bytes) (f : DeviceStatus → DeviceStatus) (ds : List DeviceStatus)
    → IsUpdate f
    → find_device j (update_device k f ds) ≡ (
        if bytes_eq k j
        then some (f (get_or (find_device k ds) (new_device k)))
        else find_device j ds)
unfolding find_device update_device
find_device-update j k f [] h = rw (h (new_device k)) refl
find_device-update j k f (d ∷ ds) h = elim (Bool-cases (bytes_eq d.id k)) [
  | inl same ↦
      rw
        (
          same,
          find_device,
          ap (λ i. bytes_eq i j) (h d ∙ (bytes_eq_iff d.id k).0 same),
          ap (λ i. bytes_eq i j) ((bytes_eq_iff d.id k).0 same),
        )
        (if_twice (bytes_eq k j))
  | inr other ↦
      rw (other, find_device, find_device-update j k f ds h)
        (ground (arith, bytes_eq_iff d.id k, bytes_eq_iff d.id j, bytes_eq_iff k j))
]
  where
    if_twice :
        (b : Bool)
        → (if b then some (f d) else find_device j ds)
          ≡ (if b then some (f d) else (if b then some d else find_device j ds))
    if_twice true = refl
    if_twice false = refl

pub is_registered-of :
    (j : Bytes) (ds : List DeviceStatus) → is_registered j ds ≡ registered_of (find_device j ds)
unfolding is_registered
is_registered-of j ds = refl

-- A write that leaves `registered` alone leaves every device's registration alone.
pub is_registered-update :
    (j k : Bytes) (f : DeviceStatus → DeviceStatus) (ds : List DeviceStatus)
    → IsUpdate f
    → ((d : DeviceStatus) → (f d).registered ≡ d.registered)
    → is_registered j (update_device k f ds) ≡ is_registered j ds
is_registered-update j k f ds h g =
    is_registered-of j (update_device k f ds)
    ∙ ap registered_of (find_device-update j k f ds h)
    ∙ elim (Bool-cases (bytes_eq k j)) [
      | inr other ↦ rw other refl
      | inl same ↦ rw (same, g, ← (bytes_eq_iff k j).0 same) (made (find_device k ds))
    ]
    ∙ sym (is_registered-of j ds)
  where
    made : (o : Option DeviceStatus) → (get_or o (new_device k)).registered ≡ registered_of o
    made none = refl
    made (some d) = refl

-- The device that is written is the one that REGISTER names; the others keep their registration.
pub is_registered-register :
    (j k : Bytes) (now : ℕ) (ds : List DeviceStatus)
    → is_registered j (update_device k (register_device now) ds)
      ≡ (bytes_eq k j || is_registered j ds)
is_registered-register j k now ds =
    is_registered-of j (update_device k (register_device now) ds)
    ∙ ap registered_of (find_device-update j k (register_device now) ds (λ d. refl))
    ∙ elim (Bool-cases (bytes_eq k j)) [ inr other ↦ rw other refl | inl same ↦ rw same refl ]
    ∙ ap (λ b. bytes_eq k j || b) (sym (is_registered-of j ds))
