-- ===== src/Fec/OpenSets.antt =====
-- The sets that wait for shards: what opening, erasing and discarding them keeps.
use mathlib.Core.Option.{none-ne-some, some-injective}
use shimakaze.Common.{
  either, ℕ, zero, suc, ◌*◌, ◌<◌, ◌==◌, ==_iff, Bool, true, false, if◌then◌else◌, [], ◌∷◌, Option,
  none, some, length, replicate, All, ◌≡◌, refl, ap, arith, subst,
}
use shimakaze.Fec.Matrix.{Matrix}
use shimakaze.Fec.Codec.{FecCodec, ShardSet}
use shimakaze.Fec.Decoder.{
  Sets, find_set, erase_set, empty_set, unless_empty, opened, open_set, count_present, discard_from,
}

-- A set with room for every shard of its group, of which fewer than `data_shards_` are there.
pub record IsOpen (size data_shards paws : ℕ) (entry : ℕ × ShardSet) : Type 0 where
  pub numbered : entry.0 * size < paws
  pub shards : length entry.1.shards ≡ size
  pub present : length entry.1.present ≡ size
  pub data_shard : length entry.1.data_shard ≡ size
  pub waiting : count_present entry.1.present < data_shards

abbrev pub AreOpen : FecCodec → Sets → Type 0
AreOpen s sets = All (IsOpen s.shard_size s.data_shards s.paws) sets

pub record IsReceiver (s : FecCodec) : Type 0 where
  pub some_data : 0 < s.data_shards
  pub sets : AreOpen s s.decode_sets

count-replicate : (n : ℕ) → count_present (replicate n false) ≡ 0
unfolding count_present
count-replicate zero = refl
count-replicate (suc n) = count-replicate n

length-replicate {ℓ} : {A : Type ℓ} (n : ℕ) (x : A) → length (replicate n x) ≡ n
length-replicate zero x = refl
length-replicate (suc n) x = ap suc (length-replicate n x)

module _ (s : FecCodec) where
  pub erase_set-AreOpen : (id : ℕ) (sets : Sets) → AreOpen s sets → AreOpen s (erase_set id sets)
  unfolding erase_set
  erase_set-AreOpen id [] h = tt
  erase_set-AreOpen id (entry ∷ rest) h =
      let later = erase_set-AreOpen id rest h.1 in
      either (AreOpen s) (entry.0 == id) (erase_set id rest) (entry ∷ erase_set id rest) later
        (h.0, later)

  pub discard_from-AreOpen :
      (newest : ℕ) (sets : Sets)
      → AreOpen s sets
      → AreOpen s (discard_from newest s.shard_size sets)
  unfolding discard_from
  discard_from-AreOpen newest [] h = tt
  discard_from-AreOpen newest (entry ∷ rest) h =
      let later = discard_from-AreOpen newest rest h.1 in
      either (AreOpen s) _ (discard_from newest s.shard_size rest)
        (entry ∷ discard_from newest s.shard_size rest) later (h.0, later)

  find_set-IsOpen :
      (id : ℕ) (sets : Sets)
      → AreOpen s sets
      → (found : ShardSet) → find_set id sets ≡ some found
      → IsOpen s.shard_size s.data_shards s.paws (id, found)
  unfolding find_set
  find_set-IsOpen id [] h found e = absurd (none-ne-some found e)
  find_set-IsOpen id (entry ∷ rest) h found e =
      go (entry.0 == id) refl e (find_set-IsOpen id rest h.1 found)
    where
      go :
          (b : Bool)
          → (entry.0 == id) ≡ b
          → (if b then some entry.1 else find_set id rest) ≡ some found
          → (find_set id rest ≡ some found → IsOpen s.shard_size s.data_shards s.paws (id, found))
          → IsOpen s.shard_size s.data_shards s.paws (id, found)
      go true same e later =
          subst (λ f. IsOpen s.shard_size s.data_shards s.paws (id, f)) (some-injective _ _ e)
            (subst (λ i. IsOpen s.shard_size s.data_shards s.paws (i, entry.1))
              ((==_iff entry.0 id).0 same) h.0)
      go false same e later = later e

  empty_set-IsOpen :
      (id : ℕ)
      → 0 < s.data_shards
      → id * s.shard_size < s.paws
      → IsOpen s.shard_size s.data_shards s.paws (id, empty_set s.shard_size)
  unfolding empty_set
  empty_set-IsOpen id pos h = record {
    numbered = h;
    shards = length-replicate s.shard_size [];
    present = length-replicate s.shard_size false;
    data_shard = length-replicate s.shard_size false;
    waiting = omega (arith, count-replicate s.shard_size);
  }

  pub open_set-IsOpen :
      (id : ℕ)
      → IsReceiver s
      → id * s.shard_size < s.paws
      → IsOpen s.shard_size s.data_shards s.paws (id, open_set id s)
  unfolding open_set opened unless_empty
  open_set-IsOpen id h inside = go (find_set id s.decode_sets) refl
    where
      fresh : IsOpen s.shard_size s.data_shards s.paws (id, empty_set s.shard_size)
      fresh = empty_set-IsOpen id h.some_data inside

      go :
          (o : Option ShardSet)
          → find_set id s.decode_sets ≡ o
          → IsOpen s.shard_size s.data_shards s.paws (id, opened s.shard_size o)
      go none e = fresh
      go (some found) e = rest found.shards
        where
          rest :
              (shards : Matrix)
              → IsOpen s.shard_size s.data_shards s.paws
                  (id, unless_empty s.shard_size shards found)
          rest [] = fresh
          rest (shard ∷ shards) = find_set-IsOpen id s.decode_sets h.sets found e
