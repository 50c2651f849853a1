-- ===== src/MemoryCache/History.antt =====
-- The cache against all that was added: an unbounded history that a reset empties.
use fbapy.Base.{
  ℕ, zero, suc, ◌+◌, ◌-◌, ◌≤◌, ◌≡◌, refl, sym, ap, ◌∙◌, true, false, List, [], ◌∷◌, ◌++◌, ◌==◌, leb,
  length, length-append, All, arith, Bool-cases, inl, inr,
}
use fbapy.MemoryCache.{
  Interaction, drop, append, interaction, add, insert_sorted, sort_accessed, retrieve_recent, Call,
  add_call, clear_call, run,
}

-- All that was added since the last reset, after what was there before.
abbrev pub since : List Interaction → List Call → List Interaction
since h [] = h
since h (add_call turn ∷ calls) = since (h ++ interaction turn ∷ []) calls
since h (clear_call ∷ calls) = since [] calls

-- The last `n` elements.
unfoldable pub last : ℕ → List Interaction → List Interaction
unfolding drop
last n xs = drop (length xs - n) xs

-- The loop's clock does not run backwards.
abbrev pub Ordered : List Interaction → Type 0
Ordered [] = Unit
Ordered (x ∷ xs) = All (λ (y : Interaction). x.last_accessed ≤ y.last_accessed) xs × Ordered xs

length-drop : (n : ℕ) (xs : List Interaction) → length (drop n xs) ≡ length xs - n
unfolding drop
length-drop zero xs = omega arith
length-drop (suc n) [] = omega arith
length-drop (suc n) (x ∷ xs) = omega (arith, length-drop n xs)

drop-append :
    (n : ℕ) (xs ys : List Interaction) → n ≤ length xs → drop n (xs ++ ys) ≡ drop n xs ++ ys
unfolding drop
drop-append zero xs ys h = refl
drop-append (suc n) [] ys h = absurd (omega arith)
drop-append (suc n) (x ∷ xs) ys h = drop-append n xs ys (omega arith)

abbrev nothing : List Interaction
nothing = []

drop-nil : (n : ℕ) → drop n nothing ≡ nothing
unfolding drop
drop-nil zero = refl
drop-nil (suc n) = refl

drop-drop : (m n : ℕ) (xs : List Interaction) → drop m (drop n xs) ≡ drop (n + m) xs
unfolding drop
drop-drop m zero xs = let e : m ≡ 0 + m = omega arith in ap (λ n. drop n xs) e
drop-drop m (suc n) [] = drop-nil m ∙ sym (drop-nil (suc n + m))
drop-drop m (suc n) (x ∷ xs) =
    let e : suc (n + m) ≡ suc n + m = omega arith in drop-drop m n xs ∙ ap (λ k. drop k (x ∷ xs)) e

drop-whole : (n : ℕ) (xs : List Interaction) → length xs ≤ n → drop n xs ≡ []
unfolding drop
drop-whole zero [] h = refl
drop-whole zero (x ∷ xs) h = absurd (omega arith)
drop-whole (suc n) [] h = refl
drop-whole (suc n) (x ∷ xs) h = drop-whole n xs (omega arith)

append-last :
    (max_size : ℕ) (x : Interaction) (h : List Interaction)
    → append max_size x (last max_size h) ≡ last max_size (h ++ x ∷ [])
unfolding append last drop
append-last max_size x h =
    let grown = length-append h (x ∷ []) in
    let kept = length-drop (length h - max_size) h in
    elim (Bool-cases (max_size == 0)) [
      | inl nothing ↦
          rw nothing
            (sym (drop-whole (length (h ++ x ∷ []) - max_size) (h ++ x ∷ []) (ground arith)))
      | inr something ↦ elim (Bool-cases (length (drop (length h - max_size) h) == max_size)) [
        | inl full ↦
            let more : length (h ++ x ∷ []) - max_size ≡ (length h - max_size) + 1 = ground arith in
            rw (something, full)
              (ap (λ l. l ++ x ∷ []) (drop-drop 1 (length h - max_size) h)
                ∙ sym (drop-append ((length h - max_size) + 1) h (x ∷ []) (ground arith))
                ∙ ap (λ n. drop n (h ++ x ∷ [])) (sym more))
        | inr free ↦
            let few : length h - max_size ≡ 0 = ground arith in
            let few' : length (h ++ x ∷ []) - max_size ≡ 0 = ground arith in
            rw (something, free)
              (ap (λ n. drop n h ++ x ∷ []) few ∙ sym (ap (λ n. drop n (h ++ x ∷ [])) few'))
      ]
    ]

last-nil : (n : ℕ) → last n [] ≡ []
unfolding last
last-nil n = drop-nil (0 - n)

-- After any calls, the cache holds the last `max_size` of what was added since it was last reset.
pub run-last :
    (max_size : ℕ) (h : List Interaction) (calls : List Call)
    → run max_size (last max_size h) calls ≡ last max_size (since h calls)
unfolding run add
run-last max_size h [] = refl
run-last max_size h (add_call turn ∷ calls) =
    ap (λ c. run max_size c calls) (append-last max_size (interaction turn) h)
    ∙ run-last max_size (h ++ interaction turn ∷ []) calls
run-last max_size h (clear_call ∷ calls) =
    ap (λ c. run max_size c calls) (sym (last-nil max_size)) ∙ run-last max_size [] calls

sort-Ordered : (xs : List Interaction) → Ordered xs → sort_accessed xs ≡ xs
unfolding sort_accessed insert_sorted
sort-Ordered [] o = refl
sort-Ordered (x ∷ []) o = refl
sort-Ordered (x ∷ y ∷ ys) o =
    ap (insert_sorted x) (sort-Ordered (y ∷ ys) o.1)
    ∙ (let first : leb x.last_accessed y.last_accessed ≡ true = ground (arith, o.0.0) in
        rw first refl)

Ordered-drop : (n : ℕ) (xs : List Interaction) → Ordered xs → Ordered (drop n xs)
unfolding drop
Ordered-drop zero xs o = o
Ordered-drop (suc n) [] o = tt
Ordered-drop (suc n) (x ∷ xs) o = Ordered-drop n xs o.1

Ordered-last : (n : ℕ) (xs : List Interaction) → Ordered xs → Ordered (last n xs)
unfolding last
Ordered-last n xs o = Ordered-drop (length xs - n) xs o

last-last :
    (limit max_size : ℕ) (h : List Interaction)
    → limit ≤ max_size
    → last limit (last max_size h) ≡ last limit h
unfolding last
last-last limit max_size h small =
    let kept = length-drop (length h - max_size) h in
    let sum : (length h - max_size) + (length (drop (length h - max_size) h) - limit)
        ≡ length h - limit =
      omega (arith, kept) in
    drop-drop (length (drop (length h - max_size) h) - limit) (length h - max_size) h
    ∙ ap (λ n. drop n h) sum

-- From an empty cache, while the loop's clock does not run backwards: whatever calls were made, a limit
-- from 1 to the size of the cache gives as many of the last additions, the oldest of them first.
pub retrieve_recent-last :
    (max_size limit : ℕ) (calls : List Call)
    → 1 ≤ limit
    → limit ≤ max_size
    → Ordered (since [] calls)
    → retrieve_recent limit (run max_size [] calls) ≡ last limit (since [] calls)
unfolding retrieve_recent last
retrieve_recent-last max_size limit calls positive small o =
    let some_limit : (limit == 0) ≡ false = ground arith in
    let held =
      ap (λ c. run max_size c calls) (sym (last-nil max_size)) ∙ run-last max_size [] calls in
    let answer = ap (last limit) held ∙ last-last limit max_size (since [] calls) small in
    rw some_limit (
      ap sort_accessed answer
      ∙ sort-Ordered (last limit (since [] calls)) (Ordered-last limit (since [] calls) o))
