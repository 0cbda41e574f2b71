-- ===== src/Messenger/Idle.antt =====
-- A connection on which nothing arrives (messenger_core.cc, check_idle).
use nox13_interserver.Common.{
  ℕ, zero, suc, ◌+◌, ◌-◌, ◌≤◌, ◌<◌, ◌≡◌, false, List, [], ◌∷◌, ◌++◌, length, All, arith, sym, subst,
  ◌∙◌,
}
use mathlib.Core.List.{append_assoc}
use nox13_interserver.Messenger.Connection.{
  Processor, Connection, Delivery, echo, disconnection, check_idle, post_disconnect, process,
}

abbrev pub repeat : ℕ → Delivery → List Delivery
repeat zero d = []
repeat (suc n) d = d ∷ repeat n d

module _ (P : Processor) where
  -- The timer of check_idle firing at the times listed.
  abbrev pub idle_checks : ℕ → ℕ → List ℕ → Connection P → Connection P
  idle_checks interval threshold [] c = c
  idle_checks interval threshold (now ∷ later) c =
      idle_checks interval threshold later (check_idle P interval threshold now c).0

  abbrev pinged : Connection P → Connection P
  pinged c = record c { echo_missed = c.echo_missed + 1; delivered = c.delivered ++ echo ∷ [] }

  check_idle-pinged :
      (interval threshold now : ℕ) (c : Connection P)
      → interval < now - c.last_active
      → c.echo_missed < threshold
      → threshold < 256
      → (check_idle P interval threshold now c).0 ≡ pinged c
  unfolding check_idle
  check_idle-pinged interval threshold now c h l t = ground arith

  -- Closed after n unanswered echoes.
  abbrev pub Closed : ℕ → Connection P → Connection P → Type 0
  Closed n c d =
      (d.running ≡ false)
      × (d.received ≡ [])
      × (d.delivered ≡ c.delivered ++ (repeat n echo ++ disconnection ∷ []))

  check_idle-Closed :
      (interval threshold now : ℕ) (c : Connection P)
      → interval < now - c.last_active
      → threshold ≤ c.echo_missed
      → Closed 0 c (check_idle P interval threshold now c).0
  unfolding check_idle post_disconnect process
  check_idle-Closed interval threshold now c h l = ground arith

  -- If every check comes more than the interval after the last message, and the echoes missed before
  -- and the checks that precede the last one are together the threshold, which is below 256, then
  -- each of those checks sends an echo, and the last one closes the connection, empties its buffer and
  -- reports the disconnection.
  pub idle_checks-Closed :
      (interval threshold last : ℕ) (times : List ℕ) (c : Connection P)
      → All (λ now. interval < now - c.last_active) times
      → interval < last - c.last_active
      → c.echo_missed + length times ≡ threshold
      → threshold < 256
      → Closed
          (length times)
          c
          (check_idle P interval threshold last (idle_checks interval threshold times c)).0
  idle_checks-Closed interval threshold last [] c h l e t =
      check_idle-Closed interval threshold last c l (ground arith)
  idle_checks-Closed interval threshold last (now ∷ later) c (h, hs) l e t =
      let (stopped, empty, told) =
        idle_checks-Closed interval threshold last later (pinged c) hs l (ground arith) t in
      subst
        (λ d.
          Closed (suc (length later)) c
            (check_idle P interval threshold last (idle_checks interval threshold later d)).0)
        (sym (check_idle-pinged interval threshold now c h (ground arith) t))
        (stopped, empty, told ∙ append_assoc c.delivered (echo ∷ []) _)
