-- ===== src/Events/Replay.antt =====
-- A client that resumes from the last id it saw: pages of `Replay` put end to end.
use aurium.Base.{
  ℕ, ◌+◌, ◌<◌, ◌≤◌, ◌≡◌, refl, sym, ap, ◌∙◌, Bool, true, false, List, [], ◌∷◌, ◌++◌, zero, suc,
  select, take, drop, All, ltb, arith, if◌then◌else◌,
}
use aurium.Events.{Event, Filter, wants_type, wants_row, or_500, page}

-- The order of the log: every row has a higher id than those before it.
abbrev pub IsRising : List Event → Type 0
IsRising [] = Unit
IsRising (e ∷ es) = All (λ (x : Event). e.id < x.id) es × IsRising es

-- The last id that a client saw of a page, or the one it started from.
abbrev pub cursor : ℕ → List Event → ℕ
cursor since [] = since
cursor since (e ∷ es) = cursor e.id es

module _ (P : Event → Type 0) where
  All-kept :
      (b : Bool) (e : Event) (es : List Event) → P e → All P es → All P (if b then e ∷ es else es)
  All-kept true e es h hs = (h, hs)
  All-kept false e es h hs = hs

  pub All-select : (p : Event → Bool) (es : List Event) → All P es → All P (select p es)
  All-select p [] h = tt
  All-select p (e ∷ es) h = All-kept (p e) e (select p es) h.0 (All-select p es h.1)

kept-IsRising :
    (b : Bool) (e : Event) (es : List Event)
    → All (λ (x : Event). e.id < x.id) es
    → IsRising es
    → IsRising (if b then e ∷ es else es)
kept-IsRising true e es h hs = (h, hs)
kept-IsRising false e es h hs = hs

pub select-IsRising : (p : Event → Bool) (es : List Event) → IsRising es → IsRising (select p es)
select-IsRising p [] h = tt
select-IsRising p (e ∷ es) h =
    kept-IsRising (p e) e (select p es) (All-select (λ x. e.id < x.id) p es h.0)
      (select-IsRising p es h.1)

select-All : (p : Event → Bool) (es : List Event) → All (λ e. p e ≡ true) es → select p es ≡ es
select-All p [] h = refl
select-All p (e ∷ es) h = rw (h.0, select-All p es h.1)

All-above : (c : ℕ) (es : List Event) → All (λ e. c < e.id) es → All (λ e. ltb c e.id ≡ true) es
All-above c [] h = tt
All-above c (e ∷ es) h = (ground arith, All-above c es h.1)

kept-above :
    (b : Bool) (since : ℕ) (e : Event) (es : List Event)
    → (b ≡ true → since < e.id)
    → All (λ e. since < e.id) es
    → All (λ e. since < e.id) (if b then e ∷ es else es)
kept-above true since e es h hs = (h refl, hs)
kept-above false since e es h hs = hs

wants-above :
    (since : ℕ) (f : Filter) (rows : List Event)
    → All (λ e. since < e.id) (select (wants_row since f) rows)
wants-above since f [] = tt
wants-above since f (e ∷ rows) =
    kept-above (wants_row since f e) since e (select (wants_row since f) rows) (λ w. ground arith)
      (wants-above since f rows)

cursor_le :
    (c n : ℕ) (es : List Event) → All (λ e. c < e.id) es → IsRising es → c ≤ cursor c (take n es)
cursor_le c zero es h r = omega arith
cursor_le c (suc n) [] h r = omega arith
cursor_le c (suc n) (e ∷ es) h r = omega (arith, cursor_le e.id n es r.0 r.1, h.0)

-- Behind the page that a client saw stands what comes after it.
select-cursor :
    (c n : ℕ) (es : List Event)
    → All (λ e. c < e.id) es
    → IsRising es
    → select (λ e. ltb (cursor c (take n es)) e.id) es ≡ drop n es
select-cursor c zero es h r = select-All _ es (All-above c es h)
select-cursor c (suc n) [] h r = refl
select-cursor c (suc n) (e ∷ es) h r =
    let k : e.id ≤ cursor e.id (take n es) = cursor_le e.id n es r.0 r.1 in
    let rest = select-cursor e.id n es r.0 r.1 in ground arith

select-later :
    (c c' : ℕ) (f : Filter) (rows : List Event)
    → c ≤ c'
    → select (wants_row c' f) rows ≡ select (λ e. ltb c' e.id) (select (wants_row c f) rows)
select-later c c' f [] h = refl
select-later c c' f (e ∷ rows) h = ground (arith, select-later c c' f rows h)

abbrev nothing : List Event
nothing = []

take-nil : (n : ℕ) → take n [] ≡ nothing
take-nil zero = refl
take-nil (suc n) = refl

take_at : (n m : ℕ) (es : List Event) → n ≡ m → take n es ≡ take m es
take_at n m es h = ap (λ k. take k es) h

take-append_drop : (n m : ℕ) (es : List Event) → take n es ++ take m (drop n es) ≡ take (n + m) es
take-append_drop zero m es = ap (λ k. take k es) (omega arith)
take-append_drop (suc n) m [] = take-nil m ∙ sym (take-nil (suc n + m))
take-append_drop (suc n) m (e ∷ es) =
    ap (λ xs. e ∷ xs) (take-append_drop n m es)
    ∙ take_at (suc (n + m)) (suc n + m) (e ∷ es) (omega arith)

or_500_suc : (n : ℕ) → 0 < n → or_500 n ≡ n
unfolding or_500
or_500_suc zero h = absurd (omega arith)
or_500_suc (suc n) h = refl

All-wants_type :
    (f : Filter) → f.types ≡ [] → (es : List Event) → All (λ e. wants_type f e ≡ true) es
All-wants_type f h [] = tt
All-wants_type f h (e ∷ es) = (rw h refl, All-wants_type f h es)

page_all_types :
    (since : ℕ) (f : Filter) (n : ℕ) (rows : List Event)
    → f.types ≡ []
    → 0 < n
    → page since f n rows ≡ take n (select (wants_row since f) rows)
unfolding page
page_all_types since f n rows h k = rw (or_500_suc n k) (
    select-All (wants_type f) (take n (select (wants_row since f) rows))
      (All-wants_type f h (take n (select (wants_row since f) rows))))

-- Over rows with rising ids, and with a filter that names no type, a page of `n` events and the page
-- of `m` that is asked for with the last id seen are together the page of `n + m`, where neither is 0:
-- nothing is missed and nothing is seen twice.
pub page-resumes :
    (since n m : ℕ) (f : Filter) (rows : List Event)
    → IsRising rows
    → f.types ≡ []
    → 0 < n
    → 0 < m
    → page since f n rows ++ page (cursor since (page since f n rows)) f m rows
      ≡ page since f (n + m) rows
page-resumes since n m f rows r h hn hm =
    let seen = select (wants_row since f) rows in
    let above = wants-above since f rows in
    let rising = select-IsRising (wants_row since f) rows r in
    rw (page_all_types since f n rows h hn) (
      rw (page_all_types (cursor since (take n seen)) f m rows h hm) (
        rw (page_all_types since f (n + m) rows h (omega arith)) (
          rw
            (select-later since (cursor since (take n seen)) f rows
              (cursor_le since n seen above rising))
            (rw (select-cursor since n seen above rising) (take-append_drop n m seen)))))
