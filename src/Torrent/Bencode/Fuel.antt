-- ===== src/Torrent/Bencode/Fuel.antt =====
-- metainfo.go, readValue as a whole: the fuel of `decode` is enough for every input, and what is
-- decoded is a value of Go's types, with each key of a map once.
use atlas_bridge.Base.{ℕ, zero, suc, ◌+◌, ◌*◌, ◌<◌, ◌≡◌, ◌≢◌, [], ◌∷◌, arith, ◌==◌, length, ok, err}
use atlas_bridge.Base.Text.{Bytes}
use atlas_bridge.Torrent.Bencode.{
  Value, Entries, end, out_of_fuel, read_byte, read_integer, read_string, unread, put, read_value,
  read_items, read_entries, decode,
}
use atlas_bridge.Torrent.Bencode.Values.{IsWellFormed, AllWellFormed, IsMap}
use atlas_bridge.Torrent.Bencode.Ends.{
  Ends, returned, refused, Ends-value, Ends-in_fuel, Ends-branch, Ends-step, Shorter,
  Shorter-weaken, read_integer-Ends, read_string-Ends, as_key-Ends, put-IsMap,
}

-- One induction on the fuel, which stays above twice the input that is left.
mutual
  unfolding read_value read_byte unread

  read_value-Ends :
      (f : ℕ) (bs : Bytes) → 2 * length bs < f → Ends (Shorter bs IsWellFormed) (read_value f bs)
  read_value-Ends zero bs h = absurd (omega arith)
  read_value-Ends (suc f) [] h = refused (cc)
  read_value-Ends (suc f) (b ∷ bs) h =
      Ends-branch (b == b'i')
        (Shorter-weaken _ bs (b ∷ bs) (read_integer bs) (omega arith) (read_integer-Ends bs))
        (Ends-branch (b == b'l')
          (Ends-step (read_items-Ends f bs (omega arith))
            λ (xs, rest) (w, s). returned (w, omega arith))
          (Ends-branch (b == b'd')
            (Ends-step (read_entries-Ends f end bs (omega arith) tt)
              λ (es, rest) (w, s). returned (w, omega arith))
            (Shorter-weaken _ bs (b ∷ bs) (read_string b bs) (omega arith)
              (read_string-Ends b bs))))

  read_items-Ends :
      (f : ℕ) (bs : Bytes)
      → 2 * length bs + 1 < f
      → Ends (Shorter bs AllWellFormed) (read_items f bs)
  read_items-Ends zero bs h = absurd (omega arith)
  read_items-Ends (suc f) [] h = refused (cc)
  read_items-Ends (suc f) (b ∷ bs) h = Ends-branch (b == b'e') (returned (tt, omega arith)) (
      Ends-step (read_value-Ends f (b ∷ bs) (omega arith)) λ (v, rest₁) (w, s).
        Ends-step (read_items-Ends f rest₁ (omega arith))
          λ (xs, rest₂) (ws, s'). returned ((w, ws), omega arith))

  read_entries-Ends :
      (f : ℕ) (out : Entries) (bs : Bytes)
      → 2 * length bs + 1 < f
      → IsMap out
      → Ends (Shorter bs IsMap) (read_entries f out bs)
  read_entries-Ends zero out bs h m = absurd (omega arith)
  read_entries-Ends (suc f) out [] h m = refused (cc)
  read_entries-Ends (suc f) out (b ∷ bs) h m = Ends-branch (b == b'e') (returned (m, omega arith)) (
      Ends-step (read_value-Ends f (b ∷ bs) (omega arith)) λ (k, rest₁) (wk, s).
        Ends-step (as_key-Ends k wk) λ key hk.
          Ends-step (read_value-Ends f rest₁ (omega arith)) λ (v, rest₂) (wv, s').
            Shorter-weaken _ rest₂ (b ∷ bs) (read_entries f (put key v out) rest₂) (omega arith) (
              read_entries-Ends f (put key v out) rest₂ (omega arith)
                (put-IsMap key v out hk wv m)))

decode-Ends : (bs : Bytes) → Ends IsWellFormed (decode bs)
unfolding decode
decode-Ends bs =
    Ends-step (read_value-Ends (2 * length bs + 1) bs (omega arith)) λ (v, _) (w, _). returned w

-- The fuel of `decode` is enough: on no input does the model give up where the program goes on.
pub decode-in_fuel : (bs : Bytes) → decode bs ≢ err out_of_fuel
decode-in_fuel bs = Ends-in_fuel (decode-Ends bs)

-- What is decoded from any bytes has int64 integers, strings within the limit, and maps with each
-- key once.
pub decode-IsWellFormed : (bs : Bytes) {v : Value} → decode bs ≡ ok v → IsWellFormed v
decode-IsWellFormed bs h = Ends-value (decode-Ends bs) h
