-- ===== src/PeerConnection/Punching.antt =====
-- How long `hole_punch` can wait for the peer.
use bear_torrent_final_proje.Base.{
  ℕ, zero, suc, ◌+◌, ◌<◌, ◌≤◌, ◌≡◌, ◌↔◌, ◌≢◌, refl, ap, true, Option, none, some, Outcome, ◌>>◌,
  le→leb, ok, err, panicked, arith, ◌-◌, leb, false, Bool-cases, inl, inr,
}
use bear_torrent_final_proje.PeerConnection.{PeerConnection, read_task, send_task, hole_punch}
use bear_torrent_final_proje.FileHandler.Disk.{IoError}

le_refl : (a : ℕ) → a ≤ a
le_refl a = omega arith

le_both : {a b c d : ℕ} → a ≤ b → b ≤ c → c ≡ d → a ≤ d
le_both l m e = omega (arith, l, m, e)

lt_both : {a b c : ℕ} → a ≤ b → b < c → a < c
lt_both l m = omega (arith, l, m)

zero_add : (a : ℕ) → a ≡ zero + a
zero_add a = omega arith

same_lt : {a b c : ℕ} → b ≡ a → b < c → a < c
same_lt e l = omega (arith, l, e)

-- Two calls that end well.
first_ok : (a b : Outcome IoError (Unit {0})) → (a >> b) ≡ ok tt → a ≡ ok tt
first_ok (ok u) b e = refl
first_ok (err x) b e = absurd cc
first_ok panicked b e = absurd cc

suc_add : (k j : ℕ) → (k + j) + 1 ≡ suc k + j
suc_add k j = omega arith

leb_le : {a b : ℕ} → leb a b ≡ true → a ≤ b
leb_le e = ground (arith, e)

leb_lt : {a b : ℕ} → leb a b ≡ false → b < a
leb_lt e = ground (arith, e)

-- Round `j` of 200, counted from the last one.
up_to_last : (j : ℕ) → j < 200 → (k : ℕ) × (k + j ≡ 199)
up_to_last j l = (199 - j, omega (arith, l))

module _ (clock : ℕ → ℕ) where
  later_clock : (j k : ℕ) → ((i : ℕ) → clock i ≤ clock (i + 1)) → clock j ≤ clock (k + j)
  later_clock j zero later =
      le_both (le_refl (clock j)) (le_refl (clock j)) (ap clock {x = j} {y = zero + j} (zero_add j))
  later_clock j (suc k) later =
      let next = ap clock {x = (k + j) + 1} {y = suc k + j} (suc_add k j) in
      le_both (later_clock j k later) (later (k + j)) next

  send_task_hit :
      (t left i : ℕ)
      → t ≤ 5000
      → t ≤ clock (i + left)
      → send_task clock (some t) (suc left) i ≡ ok tt
  unfolding send_task
  send_task_hit t zero i l h =
      let here = ap clock {x = i + zero} {y = i} (omega arith) in ground (arith, here)
  send_task_hit t (suc left) i l h =
      let next = ap clock {x = i + suc left} {y = (i + 1) + left} (omega arith) in
      let rest = send_task_hit t left (i + 1) l (omega (arith, next)) in ground (arith, rest)

  send_task_miss :
      (t rounds i : ℕ)
      → ((j : ℕ) → j < rounds → clock (i + j) < t)
      → send_task clock (some t) rounds i ≢ ok tt
  unfolding send_task
  send_task_miss t zero i h = λ e. cc
  send_task_miss t (suc rounds) i h =
      let now = h zero (omega arith) in
      let here = ap clock {x = i + zero} {y = i} (omega arith) in
      let rest = send_task_miss t rounds (i + 1) (λ j l.
        let next = ap clock {x = i + suc j} {y = (i + 1) + j} (omega arith) in
        omega (arith, h (suc j) (omega arith), next)) in
      ground (arith, now, here, rest)

  send_task_late : (t rounds i : ℕ) → 5000 < t → send_task clock (some t) rounds i ≢ ok tt
  unfolding send_task
  send_task_late t zero i h = λ e. cc
  send_task_late t (suc rounds) i h = ground (arith, send_task_late t rounds (i + 1) h)

  pub send_task-none : (rounds i : ℕ) → send_task clock none rounds i ≢ ok tt
  unfolding send_task
  send_task-none zero i = λ e. cc
  send_task-none (suc rounds) i = send_task-none rounds (i + 1)

  send_task_over :
      (t : ℕ)
      → ((i : ℕ) → clock i ≤ clock (i + 1))
      → clock 199 < t
      → send_task clock (some t) 200 0 ≢ ok tt
  send_task_over t later late = send_task_miss t 200 0 (λ j l.
      let (k, e) = up_to_last j l in
      same_lt (ap clock {x = j} {y = 0 + j} (zero_add j))
        (lt_both (le_both (later_clock j k later) (le_refl (clock (k + j))) (ap clock e)) late))

  send_task-in_time :
      (t : ℕ)
      → ((i : ℕ) → clock i ≤ clock (i + 1))
      → send_task clock (some t) 200 0 ≡ ok tt
      → (t ≤ 5000) × (t ≤ clock 199)
  send_task-in_time t later e = (
    elim (Bool-cases (leb t 5000)) [
      | inl l ↦ leb_le l
      | inr l ↦ absurd (send_task_late t 200 0 (leb_lt l) e)
    ],
    elim (Bool-cases (leb t (clock 199))) [
      | inl l ↦ leb_le l
      | inr l ↦ absurd (send_task_over t later (leb_lt l) e)
    ],
  )

  sends_of :
      (c : PeerConnection) (t : ℕ)
      → c.pub_socket ≡ true
      → hole_punch c clock (some t) ≡ ok tt
      → send_task clock (some t) 200 0 ≡ ok tt
  unfolding hole_punch
  sends_of c t p e = first_ok (send_task clock (some t) 200 0) (read_task (some t)) (rw p at e)

  punched :
      (c : PeerConnection) (t : ℕ)
      → c.pub_socket ≡ true
      → t ≤ 5000
      → t ≤ clock 199
      → hole_punch c clock (some t) ≡ ok tt
  unfolding hole_punch
  punched c t p l b = rw (p, send_task_hit t 199 0 l b, le→leb t 5000 l) refl

  -- A connection that has its public socket punches through exactly if the peer's punch string comes
  -- within the five seconds of the reading task and by the time at which the last of the 200 rounds
  -- of the sending task looks at its token. The rounds look one after the other.
  pub hole_punch_iff :
      (c : PeerConnection) (heard : Option ℕ)
      → c.pub_socket ≡ true
      → ((i : ℕ) → clock i ≤ clock (i + 1))
      → (hole_punch c clock heard ≡ ok tt)
        ↔ ((t : ℕ) × (heard ≡ some t) × (t ≤ 5000) × (t ≤ clock 199))
  unfolding hole_punch
  hole_punch_iff c none p later = ground (arith, send_task-none 200 0)
  hole_punch_iff c (some t) p later = (
    λ e. let (l, b) = send_task-in_time t later (sends_of c t p e) in (t, refl, l, b),
    λ (u, e, l, b).
        let same : t ≡ u = cc in punched c t p (omega (arith, l, same)) (omega (arith, b, same)),
  )
