-- ===== src/Inference/Owned.antt =====
-- Who has the tickets of a heap: each work has at most one, no two have the same, a ticket that has
-- not left is a work's, and a work that must have a ticket has one that has not left.
use simple_serving.Prelude.{
  ℕ, ◌≡◌, ◌≢◌, refl, sym, ◌∙◌, arith, inl, inr, Bool, true, false, Option, none, some, ◌==◌,
  Bool-cases,
}
use simple_serving.Inference.Heap.{put, put_self}

pub record Owned (ref : ℕ → Option ℕ) (must : ℕ → Bool) (slot : ℕ → Option Bool) : Type 0 where
  pub inside : (k i : ℕ) → ref k ≡ some i → slot i ≢ none
  pub unique : (k l i : ℕ) → ref k ≡ some i → ref l ≡ some i → k ≡ l
  pub owner : (i : ℕ) → slot i ≡ some true → (k : ℕ) × (ref k ≡ some i)
  pub live : (k i : ℕ) → must k ≡ true → ref k ≡ some i → slot i ≡ some true

-- The same by entries.
pub Owned-ext :
    {ref ref' : ℕ → Option ℕ} {must must' : ℕ → Bool} {slot slot' : ℕ → Option Bool}
    → ((k : ℕ) → ref' k ≡ ref k)
    → ((k : ℕ) → must' k ≡ true → must k ≡ true)
    → ((i : ℕ) → slot' i ≡ slot i)
    → Owned ref must slot
    → Owned ref' must' slot'
Owned-ext r m s o = record {
  inside = λ k i e n. o.inside k i (sym (r k) ∙ e) (sym (s i) ∙ n);
  unique = λ k l i e f. o.unique k l i (sym (r k) ∙ e) (sym (r l) ∙ f);
  owner = λ i e. let (k, f) = o.owner i (sym (s i) ∙ e) in (k, r k ∙ f);
  live = λ k i a e. s i ∙ o.live k i (m k a) (sym (r k) ∙ e);
}

module _ (k : ℕ) (ref : ℕ → Option ℕ) (must : ℕ → Bool) {slot slot' : ℕ → Option Bool} where
  -- The work at `k` gets a ticket, that stands where there was none.
  pub Owned-enter :
      (i : ℕ) (m m' : Bool)
      → slot i ≡ none
      → ((j : ℕ) → slot' j ≡ put i (some true) slot j)
      → Owned (put k none ref) (put k m must) slot
      → Owned (put k (some i) ref) (put k m' must) slot'
  Owned-enter i m m' free s o = record {
    inside = λ l j e n. ground (arith, s j, o.inside l j);
    unique = λ l l' j e f. ground (arith, o.inside l i, o.inside l' i, o.unique l l' j);
    owner = λ j e. elim (Bool-cases (j == i)) [
      | inl same ↦ (k, ground arith)
      | inr other ↦ let (l, f) = o.owner j (ground (arith, s j)) in (l, ground arith)
    ];
    live = λ l j a e. ground (arith, s j, o.live l j, o.inside l j);
  }

  -- The ticket of the work at `k` leaves, and the work has none.
  pub Owned-leave :
      (i : ℕ) (m m' : Bool)
      → ((j : ℕ) → slot' j ≡ put i (some false) slot j)
      → Owned (put k (some i) ref) (put k m must) slot
      → Owned (put k none ref) (put k m' must) slot'
  Owned-leave i m m' s o = record {
    inside = λ l j e n. ground (arith, s j, o.inside l j);
    unique = λ l l' j e f. ground (arith, o.unique l l' j);
    owner = λ j e. let (l, f) = o.owner j (ground (arith, s j)) in (l, ground (arith, s j));
    live = λ l j a e. ground (arith, s j, o.live l j, o.unique l k i, put_self k (some i) ref);
  }

  -- It leaves, and the work keeps its reference.
  pub Owned-stop :
      (i : ℕ) (m : Bool)
      → ((j : ℕ) → slot' j ≡ put i (some false) slot j)
      → Owned (put k (some i) ref) (put k m must) slot
      → Owned (put k (some i) ref) (put k false must) slot'
  Owned-stop i m s o = record {
    inside = λ l j e n. ground (arith, s j, o.inside l j);
    unique = λ l l' j e f. o.unique l l' j e f;
    owner = λ j e. o.owner j (ground (arith, s j));
    live = λ l j a e. ground (arith, s j, o.live l j, o.unique l k i, put_self k (some i) ref);
  }

  -- Nothing changes but what the work at `k` must have.
  pub Owned-same :
      (x : Option ℕ) (m m' : Bool)
      → (m' ≡ true → m ≡ true)
      → ((j : ℕ) → slot' j ≡ slot j)
      → Owned (put k x ref) (put k m must) slot
      → Owned (put k x ref) (put k m' must) slot'
  Owned-same x m m' h s o = Owned-ext (λ j. refl) (λ j a. ground (arith, h)) s o
