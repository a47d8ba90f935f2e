-- ===== src/B2bua/Teardown.antt =====
-- b2bua.go: the end of a bridged call.
use gb.Base.{ℕ, ◌≡◌, ◌≢◌, ◌⊎◌}
use gb.Base.{true, false, none, some, List, [], ◌∷◌}
use gb.Base.{◌==◌, if◌then◌else◌}
use gb.Base.{All}
use gb.Base.{bytes_eq}
use gb.Dialog.State.{DialogState, terminated}
use gb.B2bua.{
  Session, Effect, hang_up, relay_stop, session_end, has_leg, find_session, handle_leg_bye,
}

-- Each session has a name of its own, and no two have a leg in common.
abbrev IsApart : Session → Session → Type 0
IsApart s t =
    (bytes_eq s.id t.id ≡ false)
    × ((s.a_leg == t.a_leg) ≡ false)
    × ((s.a_leg == t.b_leg) ≡ false)
    × ((s.b_leg == t.a_leg) ≡ false)
    × ((s.b_leg == t.b_leg) ≡ false)

abbrev pub IsPaired : List Session → Type 0
IsPaired [] = Unit
IsPaired (s ∷ ss) = All (IsApart s) ss × IsPaired ss

-- The legs of a session: `dlg` is the one, `other` the other.
abbrev pub IsAcross : Session → ℕ → ℕ → Type 0
IsAcross s dlg other =
    ((dlg ≡ s.a_leg) × (other ≡ s.b_leg)) ⊎ ((dlg ≢ s.a_leg) × (dlg ≡ s.b_leg) × (other ≡ s.a_leg))

-- What is done at the end of a session whose other leg is in this state.
abbrev pub IsWindUp : Session → ℕ → DialogState → List Effect → Type 0
IsWindUp s other terminated effects = effects ≡ relay_stop ∷ session_end s ∷ []
IsWindUp s other _ effects = effects ≡ relay_stop ∷ hang_up other ∷ session_end s ∷ []

-- What the BYE of a dialog does to the sessions.
abbrev pub IsTorn : (ℕ → DialogState) → ℕ → List Session → List Session × List Effect → Type 0
IsTorn state dlg ss (ss', effects) =
    ((find_session dlg ss ≡ none) × (ss' ≡ ss) × (effects ≡ []))
    ⊎ ((s : Session) × (find_session dlg ss ≡ some s)
        × ((other : ℕ) × IsAcross s dlg other × IsWindUp s other (state other) effects)
        × ((d : ℕ) → find_session d ss' ≡ (if has_leg d s then none else find_session d ss))
        × ((later : ℕ → DialogState) (d : ℕ)
            → has_leg d s ≡ true
            → handle_leg_bye later d ss' ≡ (ss', [])))
