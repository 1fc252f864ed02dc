-- ===== src/ConnectorGroup/Operations.antt =====
-- Which connectors of a group are called.
use meteodata_server.Base.{
  ℕ, ◌≡◌, refl, ap, Bool, false, Bool-cases, inl, inr, List, [], ◌∷◌, ◌++◌, map, if◌then◌else◌,
}
use meteodata_server.ConnectorGroup.{
  Call, starts, stops, ConnectorGroup, unexpired, call_each, call_all, cleanup_expired_connectors,
  start, stop,
}

call_each-unexpired :
    (alive : ℕ → Bool) (call : ℕ → Call) (cs : List ℕ)
    → call_each alive call (unexpired alive cs) ≡ map call (unexpired alive cs)
call_each-unexpired alive call [] = refl
call_each-unexpired alive call (c ∷ cs) = elim (Bool-cases (alive c)) [
  | inl a ↦ rw a (rw a (ap (◌∷◌ (call c)) (call_each-unexpired alive call cs)))
  | inr a ↦ rw a (call_each-unexpired alive call cs)
]

-- A connector that has expired does not come back.
unexpired-unexpired :
    (before after : ℕ → Bool) (cs : List ℕ)
    → ((c : ℕ) → before c ≡ false → after c ≡ false)
    → unexpired after (unexpired before cs) ≡ unexpired after cs
unexpired-unexpired before after [] gone = refl
unexpired-unexpired before after (c ∷ cs) gone = elim (Bool-cases (before c)) [
  | inl b ↦ rw b (ap (λ o. if after c then c ∷ o else o) (unexpired-unexpired before after cs gone))
  | inr b ↦ rw (b, gone c b) (unexpired-unexpired before after cs gone)
]

-- A group that is started then stopped: the connectors that are called are, in their order, those that
-- live at the start, then those that live at the stop, each once for each time that it was added,
-- and the group keeps the latter, if no connector comes back after it has expired.
pub stop-start :
    (before after : ℕ → Bool) (g : ConnectorGroup)
    → ((c : ℕ) → before c ≡ false → after c ≡ false)
    → let g' = stop after (start before g) in
      (g'.connectors ≡ unexpired after g.connectors)
      × (g'.calls
          ≡ (g.calls ++ map starts (unexpired before g.connectors))
            ++ map stops (unexpired after g.connectors))
unfolding stop start call_all cleanup_expired_connectors
stop-start before after g gone =
    let same = unexpired-unexpired before after g.connectors gone in
    (
      same,
      rw (call_each-unexpired before starts g.connectors) (
          rw same (
            ap (λ l. (g.calls ++ map starts (unexpired before g.connectors)) ++ l)
              (call_each-unexpired after stops g.connectors))),
    )
