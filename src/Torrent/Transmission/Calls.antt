-- ===== src/Torrent/Transmission/Calls.antt =====
-- internal/torrent/transmission.go: which requests a call sends, and what its success means.
use atlas_bridge.Base.{
  ℕ, zero, suc, ◌==◌, ◌≡◌, ◌≤◌, ◌<◌, refl, Bool, ◌||◌, List, ◌∷◌, Option, none, some, ltb, leb,
  length, Result, err, ok, arith, Bool-cases, inl, inr,
}
use atlas_bridge.Base.Text.{Bytes, codes, ◌=ᵇ◌, =ᵇ_iff}
use atlas_bridge.Torrent.Transmission.{
  Net, Sent, Rpc, Reply, RpcResponse, Envelope, concluded, opened_envelope, attempt, by_answer,
  call,
}

-- Requests that were sent in front of `log`: one, or two with the session id that the first was
-- answered, and a 409 with it.
pub data IsCalled (net : Net) (rpc : Rpc) (log : List Sent) : List Sent → Type 0 where
  once : IsCalled net rpc log (record { session = none; rpc = rpc } ∷ log)
  twice :
      (a : RpcResponse)
      → net (length log) (record { session = none; rpc = rpc }) ≡ ok a
      → a.status_code ≡ 409
      → IsCalled net rpc log (
          record { session = some a.session_id; rpc = rpc }
          ∷ record { session = none; rpc = rpc }
          ∷ log)

-- An answer with success is one with a 2xx status and the result "success".
pub record IsSuccess (a : RpcResponse) : Type 0 where
  pub accepted : 200 ≤ a.status_code
  pub in_range : a.status_code < 300
  pub envelope : Envelope
  pub decoded : a.envelope ≡ ok envelope
  pub succeeded : envelope.result ≡ codes "success"

opened_envelope-eq-ok :
    (wants : Bool) (v : Result Bytes Envelope) {r : Reply}
    → opened_envelope wants v ≡ ok r
    → (e : Envelope) × (v ≡ ok e) × (e.result ≡ codes "success")
opened_envelope-eq-ok wants (err e) h = cc h
opened_envelope-eq-ok wants (ok e) h = elim (Bool-cases (e.result =ᵇ codes "success")) [
  | inl same ↦ (e, refl, (=ᵇ_iff e.result (codes "success")).0 same)
  | inr other ↦ cc (h, other)
]

concluded-IsSuccess :
    (wants : Bool) (a : RpcResponse) {r : Reply} → concluded wants (some a) ≡ ok r → IsSuccess a
concluded-IsSuccess wants a {r} h = elim (Bool-cases (a.status_code == 409)) [
  | inl e ↦ cc (h, e)
  | inr e ↦ elim (Bool-cases (ltb a.status_code 200 || leb 300 a.status_code)) [
    | inl f ↦ cc (h, e, f)
    | inr f ↦
        let (v, decoded, good) = opened_envelope-eq-ok wants a.envelope {r = r} (cc (h, e, f)) in
        record {
          accepted = ground (arith, f);
          in_range = ground (arith, f);
          envelope = v;
          decoded = decoded;
          succeeded = good;
        }
  ]
]

module _ (net : Net) (rpc : Rpc) (wants : Bool) where
  last_attempt :
      (session : Option Bytes) (last : Option RpcResponse) (log : List Sent)
      → (attempt net 1 rpc wants session last log).0 ≡ record { session = session; rpc = rpc } ∷ log
  unfolding attempt
  last_attempt session last log =
      either (net (length log) (record { session = session; rpc = rpc }))
    where
      either :
          (r : Result Bytes RpcResponse)
          → (by_answer wants
              (record { session = session; rpc = rpc } ∷ log)
              (λ a. (record { session = session; rpc = rpc } ∷ log, concluded wants (some a)))
              r).0
            ≡ record { session = session; rpc = rpc } ∷ log
      either (err e) = refl
      either (ok a) = ground arith

  -- A successful end of the loop comes from an answer with success to a request of this call.
  attempt-IsSuccess :
      (k : ℕ) (session : Option Bytes) (last : Option RpcResponse) (log : List Sent) {r : Reply}
      → ((r' : Reply) → ¬ (concluded wants last ≡ ok r'))
      → (attempt net k rpc wants session last log).1 ≡ ok r
      → (n : ℕ) × (session' : Option Bytes) × (a : RpcResponse) × (net n
            (record { session = session'; rpc = rpc })
          ≡ ok a)
        × IsSuccess a
  unfolding attempt
  attempt-IsSuccess zero session last log {r} stale h = absurd (stale r h)
  attempt-IsSuccess (suc k) session last log stale h =
      either (net (length log) (record { session = session; rpc = rpc })) refl h (λ a.
        attempt-IsSuccess k (some a.session_id) (some a)
          (record { session = session; rpc = rpc } ∷ log))
    where
      either :
          {r : Reply} (answer : Result Bytes RpcResponse)
          → net (length log) (record { session = session; rpc = rpc }) ≡ answer
          → (by_answer wants
              (record { session = session; rpc = rpc } ∷ log)
              (λ a.
                attempt net k rpc wants
                  (some a.session_id)
                  (some a)
                  (record { session = session; rpc = rpc } ∷ log))
              answer).1
            ≡ ok r
          → ((a : RpcResponse)
              → ((r' : Reply) → ¬ (concluded wants (some a) ≡ ok r'))
              → (attempt net k rpc wants
                  (some a.session_id)
                  (some a)
                  (record { session = session; rpc = rpc } ∷ log)).1
                ≡ ok r
              → (n : ℕ) × (session' : Option Bytes) × (a' : RpcResponse) × (net n
                    (record { session = session'; rpc = rpc })
                  ≡ ok a')
                × IsSuccess a')
          → (n : ℕ) × (session' : Option Bytes) × (a : RpcResponse) × (net n
                (record { session = session'; rpc = rpc })
              ≡ ok a)
            × IsSuccess a
      either (err e) there h' again = cc h'
      either {r = result} (ok a) there h' again = elim (Bool-cases (a.status_code == 409)) [
        | inl e ↦ again a (λ r'' bad. cc (bad, e)) (cc (h', e))
        | inr e ↦
            (length log, session, a, there, concluded-IsSuccess wants a {r = result} (cc (h', e)))
      ]

  -- A call that succeeds was answered with a 2xx status and the result "success".
  pub call-IsSuccess :
      (log : List Sent) {r : Reply}
      → (call net rpc wants log).1 ≡ ok r
      → (n : ℕ) × (session : Option Bytes) × (a : RpcResponse) × (net n
            (record { session = session; rpc = rpc })
          ≡ ok a)
        × IsSuccess a
  unfolding call
  call-IsSuccess log h = attempt-IsSuccess 2 none none log (λ r' bad. cc bad) h

  -- A call sends one or two requests, and a second one only behind a 409, with its session id.
  pub call-IsCalled : (log : List Sent) → IsCalled net rpc log (call net rpc wants log).0
  unfolding call attempt
  call-IsCalled log = either (net (length log) (record { session = none; rpc = rpc })) refl
    where
      either :
          (r : Result Bytes RpcResponse)
          → net (length log) (record { session = none; rpc = rpc }) ≡ r
          → IsCalled net rpc log
              (by_answer wants
                (record { session = none; rpc = rpc } ∷ log)
                (λ a.
                  attempt net 1 rpc wants
                    (some a.session_id)
                    (some a)
                    (record { session = none; rpc = rpc } ∷ log))
                r).0
      either (err e) h = once
      either (ok a) h = elim (Bool-cases (a.status_code == 409)) [
        | inl e ↦
            rw
              (
                e,
                last_attempt (some a.session_id) (some a)
                    (record { session = none; rpc = rpc } ∷ log),
              )
              (twice a h (ground (arith, e)))
        | inr e ↦ rw e once
      ]
