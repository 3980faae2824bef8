-- ===== src/Net/Tcp/Waiting.antt =====
-- The calls that wait on a connection of net/tcp/connection.cc when it fails.
use corba_cc.Base.{
  ℕ, zero, suc, ◌<◌, ◌≡◌, refl, ap, sym, subst, List, [], ◌∷◌, length, none, some, Option-cases,
  inl, inr, arith, false, ok,
}
use corba_cc.Cdr.Bytes.{ByteOrder}
use corba_cc.Net.Stream.{buffer}
use corba_cc.Net.Tcp.{
  Tcp, idle, in_progress, receive_error, Interlock, resume_first, resume_all, fail, can_read, timer,
  timer_in,
}

-- What an interlock does, by the ids that wait in it: the first is the one that it gives, `resume` takes
-- that one out, and they are as many as it counts.
pub record IsInterlock {W : Type 0} (I : Interlock W) (ids : W → List ℕ) : Type 0 where
  pub empty : (w : W) → I.first w ≡ none → ids w ≡ []
  pub takes : (w : W) (i : ℕ) → I.first w ≡ some i → ids w ≡ i ∷ ids (I.resume i w)
  pub counts : (w : W) → I.size w ≡ length (ids w)

-- A connection that has broken, and the calls that were resumed.
pub record Broken {W : Type 0} (ids : W → List ℕ) (before after : Tcp W) (resumed : List ℕ)
    : Type 0 where
  pub all : resumed ≡ ids before.waiting
  pub left : ids after.waiting ≡ []
  pub state : after.state ≡ idle
  pub closed : after.fd ≡ none
  pub stopped : after.reading ≡ false
  pub kept : after.send_buffer ≡ before.send_buffer

module _ {W : Type 0} (I : Interlock W) (ids : W → List ℕ) (laws : IsInterlock I ids) where
  resume_all-ids :
      (fuel : ℕ) (w : W)
      → length (ids w) < fuel
      → let r = resume_all I fuel w in (r.0 ≡ ids w) × (ids r.1 ≡ [])
  unfolding resume_all resume_first
  resume_all-ids zero w h = absurd (omega arith)
  resume_all-ids (suc fuel) w h = elim (Option-cases (I.first w)) [
    | inl e ↦ let z = laws.empty w e in rw (e, z) (refl, refl)
    | inr (i, e) ↦
        let s = laws.takes w i e in
        let (all, none_left) = resume_all-ids fuel (I.resume i w) (omega (arith, ap length s, h)) in
        rw (e, s) (ap (◌∷◌ i) all, none_left)
  ]

  fail-Broken : (c : Tcp W) → let r = fail I c in Broken ids c r.1 r.0
  unfolding fail
  fail-Broken c =
      let (all, left) =
        resume_all-ids (suc (I.size c.waiting)) c.waiting (omega (arith, laws.counts c.waiting)) in
      record { all = all; left = left; state = refl; closed = refl; stopped = refl; kept = refl }

  -- When `recv` fails for `canRead` with another error than EAGAIN, exactly the calls that wait
  -- on the connection are resumed, each once and in the order of the interlock, none is left
  -- waiting, and the connection is IDLE without a socket and without a read handler, with the
  -- packets to be sent as they were; no message is handed out. An interlock gives the first of
  -- the ids that wait in it, `resume` takes out that one, and its size is their number.
  pub can_read-Broken :
      (there : ByteOrder) (c : Tcp W)
      → (resumed : List ℕ) × (c' : Tcp W) × (can_read there I receive_error c
          ≡ ok (([], resumed), c'))
        × Broken ids c c' resumed
  unfolding can_read
  can_read-Broken there c =
      let c1 : Tcp W = record c { stream = buffer c.stream } in
      let b = fail-Broken c1 in
      (
        (fail I c1).0,
        (fail I c1).1,
        refl,
        record {
          all = b.all;
          left = b.left;
          state = b.state;
          closed = b.closed;
          stopped = b.stopped;
          kept = b.kept;
        },
      )

  -- So does the timer, when it finds the connect still in progress.
  timer-Broken : (c : Tcp W) → c.state ≡ in_progress → let r = timer I c in Broken ids c r.1 r.0
  unfolding timer timer_in
  timer-Broken c h =
      subst (λ s. let r = timer_in s I c in Broken ids c r.1 r.0) (sym h) (fail-Broken c)
