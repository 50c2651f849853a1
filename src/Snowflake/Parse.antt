-- ===== src/Snowflake/Parse.antt =====
-- `parse` against `generate`.
use fbapy.Base.{ℕ, ◌+◌, ◌/◌, ◌%◌, ◌^◌, ◌≤◌, ◌<◌, ◌≡◌, subst, List, arith, All}
use fbapy.Base.Bits.{and_mask}
use fbapy.Base.Int.{ℤ, pos, ◌+ℤ◌, shr, int_and}
use fbapy.Snowflake.Config.{epoch}
use fbapy.Snowflake.{Snowflake, generate, generated, parse}
use fbapy.Snowflake.Compose.{id_number, IsValid, Issued, Ends, SinceEpoch, generate-Ends}

parse-id_number :
    (t d w n : ℕ)
    → epoch ≤ t
    → d < 32
    → w < 32
    → n < 4096
    → parse (pos (id_number t d w n))
      ≡ record { timestamp = pos t; datacenter_id = pos d; worker_id = pos w; sequence = pos n }
unfolding parse shr int_and ◌+ℤ◌
parse-id_number t d w n ht hd hw hn =
    let x = id_number t d w n in
    let a : x / 2 ^ 22 + epoch ≡ t = omega arith in
    let b : x / 2 ^ 17 % 32 ≡ d = omega arith in
    let c : x / 2 ^ 12 % 32 ≡ w = omega arith in
    let e : x % 4096 ≡ n = omega arith in
    rw (and_mask 5 (x / 2 ^ 17), and_mask 5 (x / 2 ^ 12), and_mask 12 x) (ground arith)

generated-Issued :
    (d w : ℕ) (s : Snowflake) (clock : List ℕ) {id : ℤ} {s' : Snowflake} {rest : List ℕ}
    → IsValid d w s
    → All (λ t. epoch ≤ t) clock
    → generate s clock ≡ generated id s' rest
    → Issued d w s id s' rest
generated-Issued d w s clock {id} {s'} {rest} v c e =
    subst (λ r. Ends d w s r) e (generate-Ends d w s v clock c)

-- In a valid state, with clock readings after the epoch, `parse` of an identifier that `generate`
-- returned gives the time stamp and the sequence of the state that `generate` left, and the node
-- of the generator.
pub parse-generate :
    (d w : ℕ) (s : Snowflake) (clock : List ℕ) (id : ℤ) (s' : Snowflake) (rest : List ℕ)
    → IsValid d w s
    → All (λ t. epoch ≤ t) clock
    → generate s clock ≡ generated id s' rest
    → parse id ≡ record {
      timestamp = s'.last_timestamp;
      datacenter_id = pos d;
      worker_id = pos w;
      sequence = pos s'.sequence;
    }
parse-generate d w s clock id s' rest v c e =
    let i = generated-Issued d w s clock v c e in
    rw (i.value, i.stamped)
      (parse-id_number i.time d w s'.sequence (subst SinceEpoch i.stamped i.valid.since_epoch)
        v.datacenter_fits v.worker_fits i.valid.sequence_fits)

-- Generators in valid states, with clock readings after the epoch, that return the same identifier
-- are on the same node.
pub generate_nodes :
    (d w d' w' : ℕ) (s t : Snowflake) (c₁ c₂ : List ℕ) (id : ℤ) (s' t' : Snowflake) (r₁ r₂ : List ℕ)
    → IsValid d w s
    → IsValid d' w' t
    → All (λ t. epoch ≤ t) c₁
    → All (λ t. epoch ≤ t) c₂
    → generate s c₁ ≡ generated id s' r₁
    → generate t c₂ ≡ generated id t' r₂
    → (d ≡ d') × (w ≡ w')
generate_nodes d w d' w' s t c₁ c₂ id s' t' r₁ r₂ v v' h h' e e' =
    let p = parse-generate d w s c₁ id s' r₁ v h e in
    let q = parse-generate d' w' t c₂ id t' r₂ v' h' e' in (cc (p, q), cc (p, q))
