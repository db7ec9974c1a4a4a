-- ===== src/Torrent/Transmission/Polling.antt =====
-- internal/torrent/transmission.go: the loop of DownloadFile ends when the server lets it.
use atlas_bridge.Base.{
  ℕ, zero, suc, ◌+◌, ◌≡◌, ◌≢◌, ◌≤◌, ◌<◌, refl, Bool, List, Option, none, some, Result, arith, sym,
  ap, ◌∙◌,
}
use atlas_bridge.Base.Decimal.{ℤ}
use atlas_bridge.Torrent.Transmission.{Net, Sent, TorrentStatus, RpcError, get}
use atlas_bridge.Torrent.Transmission.Fetch.{round_end, or_next, poll}
use atlas_bridge.Torrent.Transmission.Rounds.{
  after_rounds, answer_at, Ends, GoesOn, round_end-Ends, Ends-round_end, round_end-GoesOn,
}

abbrev round_at :
    Net → ℕ → ℤ → (ℕ → Bool) → ℕ → ℕ → List Sent → Option (Result RpcError TorrentStatus)
round_at net max id cancelled n zero log = round_end max (cancelled n) (get net id log).1
round_at net max id cancelled n (suc k) log =
    round_at net max id cancelled (suc n) k (get net id log).0

record StopsAt (net : Net) (max : ℕ) (id : ℤ) (cancelled : ℕ → Bool) (n k : ℕ) (log : List Sent)
    (r : List Sent × Option (Result RpcError TorrentStatus)) : Type 0 where
  pub round : ℕ
  pub in_time : round ≤ k
  pub earlier : (j : ℕ) → j < round → round_at net max id cancelled n j log ≡ none
  pub ends : round_at net max id cancelled n round log ≢ none
  pub result : r.1 ≡ round_at net max id cancelled n round log
  pub requests : r.0 ≡ after_rounds net id (suc round) log

module _ (net : Net) (max : ℕ) (id : ℤ) (cancelled : ℕ → Bool) where
  abbrev Poll : Type 0
  Poll = List Sent × Option (Result RpcError TorrentStatus)

  now :
      (n k : ℕ) (log : List Sent) (rest : Poll) (end : Result RpcError TorrentStatus)
      → round_at net max id cancelled n 0 log ≡ some end
      → StopsAt net max id cancelled n k log (or_next (some end) (get net id log).0 rest)
  now n k log rest end e = record {
    round = 0;
    in_time = omega arith;
    earlier = λ j h. absurd (omega (arith, h));
    ends = λ none'. cc (e, none');
    result = sym e;
    requests = refl;
  }

  later :
      (n k : ℕ) (log : List Sent) (rest : Poll)
      → round_at net max id cancelled n 0 log ≡ none
      → StopsAt net max id cancelled (suc n) k (get net id log).0 rest
      → StopsAt net max id cancelled n (suc k) log (or_next none (get net id log).0 rest)
  later n k log rest e f = record {
    round = suc f.round;
    in_time = omega (arith, f.in_time);
    earlier = before;
    ends = f.ends;
    result = f.result;
    requests = f.requests;
  }
    where
      before : (j : ℕ) → j < suc f.round → round_at net max id cancelled n j log ≡ none
      before zero h = e
      before (suc j) h = f.earlier j (omega (arith, h))

poll-StopsAt :
    (net : Net) (fuel max : ℕ) (id : ℤ) (cancelled : ℕ → Bool) (n k : ℕ) (log : List Sent)
    → k < fuel
    → round_at net max id cancelled n k log ≢ none
    → StopsAt net max id cancelled n k log (poll net fuel max id cancelled n log)
unfolding poll
poll-StopsAt net zero max id cancelled n k log enough ends = absurd (omega arith)
poll-StopsAt net (suc fuel) max id cancelled n k log enough ends =
    by_round (round_at net max id cancelled n 0 log) refl k enough ends
      (λ k' h ends'. poll-StopsAt net fuel max id cancelled (suc n) k' (get net id log).0 h ends')
  where
    by_round :
        (o : Option (Result RpcError TorrentStatus))
        → round_at net max id cancelled n 0 log ≡ o
        → (k : ℕ) → k < suc fuel
        → round_at net max id cancelled n k log ≢ none
        → ((k' : ℕ)
            → k' < fuel
            → round_at net max id cancelled (suc n) k' (get net id log).0 ≢ none
            → StopsAt net max id cancelled
                (suc n)
                k'
                (get net id log).0
                (poll net fuel max id cancelled (suc n) (get net id log).0))
        → StopsAt net max id cancelled n k log (
            or_next o
              (get net id log).0
              (poll net fuel max id cancelled (suc n) (get net id log).0))
    by_round (some end) e k' h ends' ih =
        now net max id cancelled n k' log
          (poll net fuel max id cancelled (suc n) (get net id log).0) end e
    by_round none e zero h ends' ih = absurd (ends' e)
    by_round none e (suc k') h ends' ih =
        later net max id cancelled n k' log
          (poll net fuel max id cancelled (suc n) (get net id log).0) e
          (ih k' (omega (arith, h)) ends')

round_at-round_end :
    (net : Net) (max : ℕ) (id : ℤ) (cancelled : ℕ → Bool) (n k : ℕ) (log : List Sent)
    → round_at net max id cancelled n k log
      ≡ round_end max (cancelled (n + k)) (answer_at net id k log)
round_at-round_end net max id cancelled n zero log =
    ap (λ m. round_end max (cancelled m) (get net id log).1) (omega arith)
round_at-round_end net max id cancelled n (suc k) log =
    round_at-round_end net max id cancelled (suc n) k (get net id log).0
    ∙ ap (λ m. round_end max (cancelled m) (answer_at net id (suc k) log)) (omega arith)

-- The first round that ends the loop: how it ends it, that no earlier one does, and the requests made.
pub record FirstEnd (net : Net) (max : ℕ) (id : ℤ) (cancelled : ℕ → Bool) (n k : ℕ)
    (log : List Sent) (r : List Sent × Option (Result RpcError TorrentStatus)) : Type 0 where
  pub round : ℕ
  pub in_time : round ≤ k
  pub earlier : (j : ℕ) → j < round → GoesOn max (cancelled (n + j)) (answer_at net id j log)
  pub end : Result RpcError TorrentStatus
  pub ends : Ends max (cancelled (n + round)) (answer_at net id round log) end
  pub result : r.1 ≡ some end
  pub requests : r.0 ≡ after_rounds net id (suc round) log

-- Whatever the server answers: if the round k would end the loop, by a failed call, a torrent that is
-- over the limit, in error or done, or since the context is done, then with any fuel above k the loop
-- ends at the first such round, with the error, or the status, of that round, behind the requests of
-- the rounds up to it and no others.
pub poll-FirstEnd :
    (net : Net) (fuel max : ℕ) (id : ℤ) (cancelled : ℕ → Bool) (n k : ℕ) (log : List Sent)
    (last : Result RpcError TorrentStatus)
    → k < fuel
    → Ends max (cancelled (n + k)) (answer_at net id k log) last
    → FirstEnd net max id cancelled n k log (poll net fuel max id cancelled n log)
poll-FirstEnd net fuel max id cancelled n k log last enough ends =
    by_end (round_at net max id cancelled n stops.round log) refl stops.ends
  where
    at_round :
        (j : ℕ)
        → round_at net max id cancelled n j log
          ≡ round_end max (cancelled (n + j)) (answer_at net id j log)
    at_round j = round_at-round_end net max id cancelled n j log

    stops : StopsAt net max id cancelled n k log (poll net fuel max id cancelled n log)
    stops = poll-StopsAt net fuel max id cancelled n k log enough (λ stays.
        Ends-round_end max (cancelled (n + k)) (answer_at net id k log) last ends
          (sym (at_round k) ∙ stays))

    by_end :
        (o : Option (Result RpcError TorrentStatus))
        → round_at net max id cancelled n stops.round log ≡ o
        → round_at net max id cancelled n stops.round log ≢ none
        → FirstEnd net max id cancelled n k log (poll net fuel max id cancelled n log)
    by_end none e h = absurd (h e)
    by_end (some end') e h = record {
      round = stops.round;
      in_time = stops.in_time;
      earlier = λ j before.
          round_end-GoesOn max (cancelled (n + j)) (answer_at net id j log)
            (sym (at_round j) ∙ stops.earlier j before);
      end = end';
      ends =
          round_end-Ends max (cancelled (n + stops.round)) (answer_at net id stops.round log)
            (sym (at_round stops.round) ∙ e);
      result = stops.result ∙ e;
      requests = stops.requests;
    }

-- What the loop ends with, some round ends with.
pub poll-Ends :
    (net : Net) (fuel max : ℕ) (id : ℤ) (cancelled : ℕ → Bool) (n : ℕ) (log : List Sent)
    {end : Result RpcError TorrentStatus}
    → (poll net fuel max id cancelled n log).1 ≡ some end
    → (over : Bool) × (round : ℕ) × Ends max over (answer_at net id round log) end
unfolding poll
poll-Ends net zero max id cancelled n log h = cc h
poll-Ends net (suc fuel) max id cancelled n log h =
    by_round (round_end max (cancelled n) (get net id log).1) refl h
      (λ h'. poll-Ends net fuel max id cancelled (suc n) (get net id log).0 h')
  where
    by_round :
        {end : Result RpcError TorrentStatus} (o : Option (Result RpcError TorrentStatus))
        → round_end max (cancelled n) (get net id log).1 ≡ o
        → (or_next o
            (get net id log).0
            (poll net fuel max id cancelled (suc n) (get net id log).0)).1
          ≡ some end
        → ((poll net fuel max id cancelled (suc n) (get net id log).0).1 ≡ some end
            → (over : Bool) × (round : ℕ) × Ends max over
                (answer_at net id round (get net id log).0)
                end)
        → (over : Bool) × (round : ℕ) × Ends max over (answer_at net id round log) end
    by_round (some end) e h' ih =
        (cancelled n, 0, round_end-Ends max (cancelled n) (get net id log).1 (cc (e, h')))
    by_round none e h' ih = let (over, round, ended) = ih h' in (over, suc round, ended)
