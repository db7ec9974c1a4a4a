-- ===== src/Providers/Mirrors.antt =====
-- internal/providers/anna.go: which mirror's answer a search takes, and the challenge state.
use atlas_bridge.Base.{
  ℕ, ◌+◌, ◌*◌, ◌≡◌, ◌≤◌, ◌<◌, refl, Bool, true, false, ◌||◌, List, [], ◌∷◌, ◌++◌, map, Option, none,
  some, ltb, leb, length, any, Result, ok, err, arith, lt→ltb, ◌∙◌,
}
use atlas_bridge.Base.Text.{Bytes, codes}
use atlas_bridge.Model.{Book, SearchOptions, SearchResponse, Failure}
use atlas_bridge.Providers.{Fetch}
use atlas_bridge.Providers.Anna.{
  Anna, Answer, hit, challenged, missed, Memory, ask, search, search_mirrors, response_of,
  challenge_time, still_challenged, all_challenged, no_mirror,
}

abbrev pub first_hit : List Answer → Option (List Book)
first_hit [] = none
first_hit (hit books ∷ rest) = some books
first_hit (challenged ∷ rest) = first_hit rest
first_hit (missed e ∷ rest) = first_hit rest

abbrev pub is_challenged : Answer → Bool
is_challenged (hit books) = false
is_challenged challenged = true
is_challenged (missed e) = false

abbrev pub last_missed : Option Failure → List Answer → Option Failure
last_missed last [] = last
last_missed last (hit books ∷ rest) = last_missed last rest
last_missed last (challenged ∷ rest) = last_missed last rest
last_missed last (missed e ∷ rest) = last_missed (some e) rest

-- A page of results is said to have a next one if it is full.
abbrev pub found_page : Bytes → SearchOptions → List Book → SearchResponse
found_page query opts books = record {
  provider_id = codes "anna";
  query = query;
  page = opts.page;
  has_more = leb opts.page_size (length books);
  results = books;
}

-- What a search should do, given every mirror's answer: the first hit is the response; else a challenge
-- is remembered, and else the last error is given.
abbrev pub outcome :
    ℕ
    → Bytes
    → SearchOptions
    → Option (List Book)
    → Bool
    → Option Failure
    → Memory
    → Memory × Result Failure SearchResponse
outcome end query opts none true last m =
    (record m { challenge_until = end + 15 * 60 * 1000000000 }, err all_challenged)
outcome end query opts none false none m = (m, err no_mirror)
outcome end query opts none false (some e) m = (m, err e)
outcome end query opts (some books) seen last m =
    (record { challenge_until = 0; kept = m.kept ++ books }, ok (found_page query opts books))

abbrev pub answers : Anna → Fetch → Bytes → SearchOptions → List Answer
answers a fetch query opts = map (ask a fetch query opts) a.mirrors

module _ (a : Anna) (fetch : Fetch) (end : ℕ) (query : Bytes) (opts : SearchOptions)
    (m : Memory) where
  -- One turn of the loop, by its mirror's answer.
  by_answer :
      (answer : Answer) (mirrors : List Bytes) (seen : Bool) (last : Option Failure)
      → ((seen' : Bool) (last' : Option Failure)
          → search_mirrors a fetch end query opts mirrors seen' last' m
            ≡ outcome end query opts
                (first_hit (map (ask a fetch query opts) mirrors))
                (seen' || any is_challenged (map (ask a fetch query opts) mirrors))
                (last_missed last' (map (ask a fetch query opts) mirrors))
                m)
      → (elim answer [
        | hit books ↦ (
          record { challenge_until = 0; kept = m.kept ++ books },
          ok (response_of query opts books),
        )
        | challenged ↦ search_mirrors a fetch end query opts mirrors true last m
        | missed e ↦ search_mirrors a fetch end query opts mirrors seen (some e) m
      ])
        ≡ outcome end query opts
            (first_hit (answer ∷ map (ask a fetch query opts) mirrors))
            (seen || any is_challenged (answer ∷ map (ask a fetch query opts) mirrors))
            (last_missed last (answer ∷ map (ask a fetch query opts) mirrors))
            m
  by_answer (hit books) mirrors seen last rest = refl
  by_answer challenged mirrors true last rest = rest true last
  by_answer challenged mirrors false last rest = rest true last
  by_answer (missed e) mirrors seen last rest = rest seen (some e)

  search_mirrors-outcome :
      (mirrors : List Bytes) (seen : Bool) (last : Option Failure)
      → search_mirrors a fetch end query opts mirrors seen last m
        ≡ outcome end query opts
            (first_hit (map (ask a fetch query opts) mirrors))
            (seen || any is_challenged (map (ask a fetch query opts) mirrors))
            (last_missed last (map (ask a fetch query opts) mirrors))
            m
  unfolding search_mirrors
  search_mirrors-outcome [] true last = refl
  search_mirrors-outcome [] false none = refl
  search_mirrors-outcome [] false (some e) = refl
  search_mirrors-outcome (mirror ∷ mirrors) seen last =
      by_answer (ask a fetch query opts mirror) mirrors seen last (search_mirrors-outcome mirrors)

-- A search that no challenge holds back gives the outcome of the mirrors' answers: the books of the first
-- mirror with a readable page, whatever those before it did; the challenge if one was met and no mirror
-- had a page, which is kept for fifteen minutes; else the last error, or that there is no mirror.
pub search-outcome :
    (a : Anna) (fetch : Fetch) (start end : ℕ) (query : Bytes) (opts : SearchOptions) (m : Memory)
    → m.challenge_until ≤ start
    → search a fetch start end query opts m
      ≡ outcome end query opts
          (first_hit (answers a fetch query opts))
          (any is_challenged (answers a fetch query opts))
          (last_missed none (answers a fetch query opts))
          m
unfolding search
search-outcome a fetch start end query opts m free =
    let passed : ltb start m.challenge_until ≡ false = ground arith in
    rw passed (search_mirrors-outcome a fetch end query opts m a.mirrors false none)

-- The memory behind a challenge that was met at the time `end`.
abbrev pub blocked : ℕ → Memory → Memory
blocked end m = record m { challenge_until = end + challenge_time }

-- When a search ends in a challenge at the time `end`, every search that starts less than fifteen minutes
-- later is refused, whatever it asks for and whatever the mirrors would answer, and changes nothing; one
-- that starts later gives the outcome of its mirrors' answers.
pub search-search :
    (a : Anna) (fetch fetch' : Fetch) (start end start' end' : ℕ) (query query' : Bytes)
    (opts opts' : SearchOptions) (m : Memory)
    → m.challenge_until ≤ start
    → first_hit (answers a fetch query opts) ≡ none
    → any is_challenged (answers a fetch query opts) ≡ true
    → (search a fetch start end query opts m ≡ (blocked end m, err all_challenged))
      × (start' < end + challenge_time
          → search a fetch' start' end' query' opts' (blocked end m)
            ≡ (blocked end m, err still_challenged))
      × (end + challenge_time ≤ start'
          → search a fetch' start' end' query' opts' (blocked end m)
            ≡ outcome end' query' opts'
                (first_hit (answers a fetch' query' opts'))
                (any is_challenged (answers a fetch' query' opts'))
                (last_missed none (answers a fetch' query' opts'))
                (blocked end m))
unfolding search
search-search a fetch fetch' start end start' end' query query' opts opts' m free no_hit met = (
  search-outcome a fetch start end query opts m free ∙ rw (no_hit, met) refl,
  λ early. rw (lt→ltb start' (end + challenge_time) early) refl,
  λ late. search-outcome a fetch' start' end' query' opts' (blocked end m) late,
)
