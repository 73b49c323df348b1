-- ===== src/TsQueue/Fifo.antt =====
-- The queue of net_tsqueue.h as a FIFO and as a double-ended queue.
use network_study.Prelude.{
  ℕ, zero, suc, ◌+◌, ◌≡◌, ◌↔◌, refl, ◌∙◌, true, false, List, [], ◌∷◌, ◌++◌, append_assoc,
  append-nil, Option, none, some, ◌>>=◌, length, length-append, arith,
}
use network_study.TsQueue.{
  front, back, pop_back, push_back, push_front, empty, count, clear, pop_front,
}

module _ {ℓ} {A : Type ℓ} where
  -- A producer's calls of `push_back`, and a consumer's calls of `pop_front`.
  unfoldable push_backs : List A → List A → List A
  push_backs q [] = q
  push_backs q (a ∷ bs) = push_backs (push_back q a) bs

  unfoldable pop_fronts : ℕ → List A → Option (List A × List A)
  pop_fronts zero q = some ([], q)
  pop_fronts (suc n) q = pop_front q >>= λ r. pop_fronts n r.1 >>= λ s. some (r.0 ∷ s.0, s.1)

  push_backs_lem : (q bs : List A) → push_backs q bs ≡ q ++ bs
  unfolding push_backs push_back
  push_backs_lem q [] = rw (append-nil q)
  push_backs_lem q (a ∷ bs) = push_backs_lem (q ++ (a ∷ [])) bs ∙ append_assoc q (a ∷ []) bs

  pop_fronts_lem : (bs q : List A) → pop_fronts (length bs) (bs ++ q) ≡ some (bs, q)
  unfolding pop_fronts pop_front
  pop_fronts_lem [] q = refl
  pop_fronts_lem (a ∷ bs) q = rw (pop_fronts_lem bs q)

  -- First in, first out: what waits in the queue comes out before what is pushed behind it, each in
  -- order, and no call fails before the queue is empty.
  pop_fronts-push_backs :
      (q bs : List A)
      → (pop_fronts (count q) (push_backs q bs) ≡ some (q, bs))
        × (pop_fronts (count q + length bs) (push_backs q bs) ≡ some (q ++ bs, []))
  unfolding count
  pop_fronts-push_backs q bs = (
    rw (push_backs_lem q bs) (pop_fronts_lem q bs),
    let e : length q + length bs ≡ length (q ++ bs) = omega (arith, length-append q bs) in
        let last : pop_fronts (length (q ++ bs)) ((q ++ bs) ++ []) ≡ some (q ++ bs, []) =
          pop_fronts_lem (q ++ bs) [] in
        rw (push_backs_lem q bs, e) (rw (append-nil (q ++ bs)) at last),
  )

  pop_back_append : (q : List A) (a : A) → pop_back (q ++ (a ∷ [])) ≡ some (a, q)
  unfolding pop_back
  pop_back_append [] a = refl
  pop_back_append (b ∷ q) a = rw (pop_back_append q a)

  -- Each end behaves as a stack: a push there is undone by a pop, is what `front` or `back` shows,
  -- counts one item more, and leaves a queue that is not empty.
  pop-push :
      (q : List A) (a : A)
      → (pop_back (push_back q a) ≡ some (a, q))
        × (pop_front (push_front q a) ≡ some (a, q))
        × (back (push_back q a) ≡ some a)
        × (front (push_front q a) ≡ some a)
        × (count (push_back q a) ≡ count q + 1)
        × (count (push_front q a) ≡ count q + 1)
        × (empty (push_back q a) ≡ false)
        × (empty (push_front q a) ≡ false)
  unfolding back front push_back push_front pop_front count empty
  pop-push [] a = (pop_back_append [] a, refl, refl, refl, omega arith, omega arith, refl, refl)
  pop-push (b ∷ q) a = (
    pop_back_append (b ∷ q) a,
    refl,
    rw (pop_back_append q a),
    refl,
    omega (arith, length-append q (a ∷ [])),
    omega arith,
    refl,
    refl,
  )

  -- `empty` holds of the queue with no item only, as after `clear`; the calls that read an item are
  -- undefined on that queue and on no other.
  empty_iff :
      (q : List A)
      → ((empty q ≡ true) ↔ (count q ≡ 0))
        × ((front q ≡ none) ↔ (empty q ≡ true))
        × ((back q ≡ none) ↔ (empty q ≡ true))
        × ((pop_front q ≡ none) ↔ (empty q ≡ true))
        × ((pop_back q ≡ none) ↔ (empty q ≡ true))
        × (empty (clear q) ≡ true)
  unfolding empty front back pop_front pop_back count clear
  empty_iff [] = ground arith
  empty_iff (a ∷ q) = ground arith
