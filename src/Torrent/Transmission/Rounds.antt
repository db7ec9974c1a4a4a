-- ===== src/Torrent/Transmission/Rounds.antt =====
-- internal/torrent/transmission.go: how a round of the loop of DownloadFile ends it.
use atlas_bridge.Base.{
  ℕ, zero, suc, ◌≡◌, ◌≢◌, ◌<◌, refl, Bool, true, false, List, [], none, some, Result, err, ok,
  arith, ◌⊎◌, inl, inr, Bool-cases, lt→ltb,
}
use atlas_bridge.Base.Text.{◌=ᵇ◌, =ᵇ_iff}
use atlas_bridge.Base.Decimal.{ℤ, pos, negsuc}
use atlas_bridge.Torrent.Transmission.{
  Net, Sent, TorrentStatus, RpcError, too_large, torrent_error, context_done, get,
}
use atlas_bridge.Torrent.Transmission.Fetch.{exceeds, round_end}

-- The requests behind k rounds, and the server's answer in round k.
abbrev pub after_rounds : Net → ℤ → ℕ → List Sent → List Sent
after_rounds net id zero log = log
after_rounds net id (suc k) log = after_rounds net id k (get net id log).0

abbrev pub answer_at : Net → ℤ → ℕ → List Sent → Result RpcError TorrentStatus
answer_at net id k log = (get net id (after_rounds net id k log)).1

-- A size over the limit, where there is one.
abbrev pub IsOver : ℕ → ℤ → Type 0
IsOver max (pos n) = (0 < max) × (max < n)
IsOver max (negsuc n) = ⊥

-- How a round ends the loop, by its answer and whether the context is done: a call that failed; a torrent
-- over the limit; a torrent in error; one that is done; or a context that is done.
abbrev pub Ends : ℕ → Bool → Result RpcError TorrentStatus → Result RpcError TorrentStatus → Type 0
Ends max over (err e) end = end ≡ err e
Ends max over (ok s) end =
    (IsOver max s.total_size × (end ≡ err too_large))
    ⊎ ((¬ IsOver max s.total_size) × (s.error ≢ []) × (end ≡ err (torrent_error s.error)))
    ⊎ ((¬ IsOver max s.total_size) × (s.error ≡ []) × (s.is_done ≡ true) × (end ≡ ok s))
    ⊎ ((¬ IsOver max s.total_size)
        × (s.error ≡ [])
        × (s.is_done ≡ false)
        × (over ≡ true)
        × (end ≡ err context_done))

-- A round behind which the loop goes on: the torrent is within the limit, not in error and not done, and
-- the context is not done.
abbrev pub GoesOn : ℕ → Bool → Result RpcError TorrentStatus → Type 0
GoesOn max over (err e) = ⊥
GoesOn max over (ok s) =
    (¬ IsOver max s.total_size) × (s.error ≡ []) × (s.is_done ≡ false) × (over ≡ false)

exceeds-IsOver : (max : ℕ) (size : ℤ) → exceeds max size ≡ true → IsOver max size
exceeds-IsOver max (pos n) h = (ground (arith, h), ground (arith, h))
exceeds-IsOver max (negsuc n) h = cc h

within-IsOver : (max : ℕ) (size : ℤ) → exceeds max size ≡ false → ¬ IsOver max size
within-IsOver max (pos n) h (limit, over) = ground (arith, h, limit, over)
within-IsOver max (negsuc n) h over = over

exceeds-true : (max : ℕ) (size : ℤ) → IsOver max size → exceeds max size ≡ true
exceeds-true max (pos n) (limit, over) = rw (lt→ltb max n over, lt→ltb 0 max limit) refl
exceeds-true max (negsuc n) over = absurd over

exceeds-false : (max : ℕ) (size : ℤ) → ¬ IsOver max size → exceeds max size ≡ false
exceeds-false max size within = elim (Bool-cases (exceeds max size)) [
  | inl e ↦ absurd (within (exceeds-IsOver max size e))
  | inr e ↦ e
]

pub round_end-Ends :
    (max : ℕ) (over : Bool) (r : Result RpcError TorrentStatus)
    {end : Result RpcError TorrentStatus}
    → round_end max over r ≡ some end
    → Ends max over r end
round_end-Ends max over (err e) h = cc h
round_end-Ends max over (ok s) h = elim (Bool-cases (exceeds max s.total_size)) [
  | inl big ↦ inl (exceeds-IsOver max s.total_size big, cc (h, big))
  | inr fits ↦
      let small = within-IsOver max s.total_size fits in
      elim (Bool-cases (s.error =ᵇ [])) [
        | inr wrong ↦ inr (inl (small, (λ e. cc (wrong, e)), cc (h, fits, wrong)))
        | inl fine ↦
            let no_error = (=ᵇ_iff s.error []).0 fine in
            elim (Bool-cases s.is_done) [
              | inl done ↦ inr (inr (inl (small, no_error, done, cc (h, fits, fine, done))))
              | inr waiting ↦ elim (Bool-cases over) [
                | inl y ↦
                    inr (inr (inr (small, no_error, waiting, y, cc (h, fits, fine, waiting, y))))
                | inr n ↦ cc (h, fits, fine, waiting, n)
              ]
            ]
      ]
]

pub Ends-round_end :
    (max : ℕ) (over : Bool) (r end : Result RpcError TorrentStatus)
    → Ends max over r end
    → round_end max over r ≢ none
Ends-round_end max over (err e) end h stays = cc stays
Ends-round_end max over (ok s) end (inl (big, e)) stays =
    cc (stays, exceeds-true max s.total_size big)
Ends-round_end max over (ok s) end (inr (inl (small, wrong, e))) stays =
    elim (Bool-cases (s.error =ᵇ [])) [
      | inl fine ↦ wrong ((=ᵇ_iff s.error []).0 fine)
      | inr bad ↦ cc (stays, exceeds-false max s.total_size small, bad)
    ]
Ends-round_end max over (ok s) end (inr (inr (inl (small, fine, done, e)))) stays =
    cc (stays, exceeds-false max s.total_size small, (=ᵇ_iff s.error []).1 fine, done)
Ends-round_end max over (ok s) end (inr (inr (inr (small, fine, waiting, y, e)))) stays =
    cc (stays, exceeds-false max s.total_size small, (=ᵇ_iff s.error []).1 fine, waiting, y)

pub round_end-GoesOn :
    (max : ℕ) (over : Bool) (r : Result RpcError TorrentStatus)
    → round_end max over r ≡ none
    → GoesOn max over r
round_end-GoesOn max over (err e) h = cc h
round_end-GoesOn max over (ok s) h = elim (Bool-cases (exceeds max s.total_size)) [
  | inl big ↦ cc (h, big)
  | inr fits ↦ elim (Bool-cases (s.error =ᵇ [])) [
    | inr wrong ↦ cc (h, fits, wrong)
    | inl fine ↦ elim (Bool-cases s.is_done) [
      | inl done ↦ cc (h, fits, fine, done)
      | inr waiting ↦ elim (Bool-cases over) [
        | inl y ↦ cc (h, fits, fine, waiting, y)
        | inr n ↦ (within-IsOver max s.total_size fits, (=ᵇ_iff s.error []).0 fine, waiting, n)
      ]
    ]
  ]
]
