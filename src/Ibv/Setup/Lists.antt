-- ===== src/Ibv/Setup/Lists.antt =====
-- The lists that the set-up makes.
use hashpipe.Base.{if◌then◌else◌, false}
use hashpipe.Base.{
  ℕ, zero, suc, ◌+◌, ◌-◌, ◌*◌, ◌/◌, ◌^◌, ◌≤◌, ◌<◌, ◌≡◌, refl, ◌⊎◌, inl, inr, arith, ap, ◌∙◌, sym,
  subst,
}
use hashpipe.Base.{Bool, true, Option, none, some, List, [], ◌∷◌, Bool-cases, dec_lt}
use hashpipe.Ibv.{Context, link, release_pkts}
use hashpipe.Ibv.Chain.{IsChain, IsNotIn, IsDistinct, link_other, link_self}
use hashpipe.Ibv.Packets.{IsFreeList}
use hashpipe.Ibv.Setup.{uint32, link_from, link_sends, link_recvs}

-- `n` numbers from `i` on.
abbrev pub numbers : ℕ → ℕ → List ℕ
numbers i zero = []
numbers i (suc n) = i ∷ numbers (i + 1) n

link_from-other :
    (n i : ℕ) (next : ℕ → Option ℕ) (j : ℕ) → (j < i) ⊎ (i + n < j) → link_from n i next j ≡ next j
unfolding link_from
link_from-other zero i next j h = link_other next i none j (omega arith)
link_from-other (suc n) i next j h =
    link_from-other n (i + 1) (link next i (some (i + 1))) j (omega arith)
    ∙ link_other next i (some (i + 1)) j (omega arith)

link_from-IsChain :
    (n i : ℕ) (next : ℕ → Option ℕ) → IsChain (link_from n i next) (some i) (numbers i (suc n))
unfolding link_from
link_from-IsChain zero i next = (refl, rw (link_self next i none) tt)
link_from-IsChain (suc n) i next = (
  refl,
  subst
      (λ o. IsChain (link_from n (i + 1) (link next i (some (i + 1)))) o (numbers (i + 1) (suc n)))
      (sym (
        link_from-other n (i + 1) (link next i (some (i + 1))) i (inl (omega arith))
        ∙ link_self next i (some (i + 1))))
      (link_from-IsChain n (i + 1) (link next i (some (i + 1)))),
)

numbers-IsNotIn : (n i j : ℕ) → j < i → IsNotIn j (numbers i n)
numbers-IsNotIn zero i j h = tt
numbers-IsNotIn (suc n) i j h = ((omega arith), numbers-IsNotIn n (i + 1) j (omega arith))

numbers-IsDistinct : (n i : ℕ) → IsDistinct (numbers i n)
numbers-IsDistinct zero i = tt
numbers-IsDistinct (suc n) i =
    (numbers-IsNotIn n (i + 1) i (omega arith), numbers-IsDistinct n (i + 1))

-- After the set-up, the free send packets are all packets of all queue pairs, each once, in order, if
-- there is one and they are fewer than 2 ^ 32.
pub link_sends-IsFreeList :
    (nqp : ℕ) (c : Context)
    → 0 < c.send_pkt_num * nqp
    → c.send_pkt_num * nqp < 2 ^ 32
    → IsFreeList (link_sends nqp c) (numbers 0 (c.send_pkt_num * nqp))
unfolding link_sends
link_sends-IsFreeList nqp c some_ small = (
  subst
      (λ m. IsChain (link_from (uint32 (c.send_pkt_num * nqp) - 1) 0 c.next) (some 0) (numbers 0 m))
      whole (link_from-IsChain (uint32 (c.send_pkt_num * nqp) - 1) 0 c.next),
  numbers-IsDistinct (c.send_pkt_num * nqp) 0,
)
  where
    whole : suc (uint32 (c.send_pkt_num * nqp) - 1) ≡ c.send_pkt_num * nqp
    whole = omega arith

-- `link_recvs` with products that do not wrap.
unfoldable link_each : (ℕ → Bool) → ℕ → ℕ → ℕ → (ℕ → Option ℕ) → (ℕ → Option ℕ) × Bool
unfolding link_from
link_each posted pkt_num zero q next = (next, true)
link_each posted pkt_num (suc n) q next =
    let rest = link_each posted pkt_num n (q + 1) (link_from (pkt_num - 1) (q * pkt_num) next) in
    if posted q then rest else (link_from (pkt_num - 1) (q * pkt_num) next, false)

no_wrap : (q n num : ℕ) → (q + suc n) * num < 2 ^ 31 → uint32 (q * num) ≡ q * num
no_wrap q n num small = omega (arith, grows)
  where
    grows : (q + suc n) * num ≡ q * num + suc n * num
    grows = grind arith

link_recvs-link_each :
    (posted : ℕ → Bool) (num n q : ℕ) (next : ℕ → Option ℕ)
    → (q + n) * num < 2 ^ 31
    → link_recvs posted num n q next ≡ link_each posted num n q next
unfolding link_recvs link_each
link_recvs-link_each posted num zero q next small = refl
link_recvs-link_each posted num (suc n) q next small =
    rw
      (
        no_wrap q n num small,
        link_recvs-link_each posted num n (q + 1) (link_from (num - 1) (q * num) next)
            (subst (λ m. m * num < 2 ^ 31) (omega arith) small),
      )
      refl

-- The packets of queue pair `q`.
link_each-before :
    (posted : ℕ → Bool) (num n q : ℕ) (next : ℕ → Option ℕ) (j : ℕ)
    → j < q * num
    → (link_each posted num n q next).0 j ≡ next j
unfolding link_each
link_each-before posted num zero q next j h = refl
link_each-before posted num (suc n) q next j h = elim (Bool-cases (posted q)) [
  | inl good ↦ rw good (
      link_each-before posted num n (q + 1) (link_from (num - 1) (q * num) next) j
        (omega (arith, next_start q num))
      ∙ link_from-other (num - 1) (q * num) next j (inl h))
  | inr bad ↦ rw bad (link_from-other (num - 1) (q * num) next j (inl h))
]
  where
    next_start : (q num : ℕ) → (q + 1) * num ≡ q * num + num
    next_start q num = grind arith

-- A chain of numbers depends on their own links only.
agrees-IsChain :
    (n i : ℕ) (f g : ℕ → Option ℕ)
    → ((j : ℕ) → i ≤ j → j < i + suc n → g j ≡ f j)
    → IsChain f (some i) (numbers i (suc n))
    → IsChain g (some i) (numbers i (suc n))
agrees-IsChain zero i f g same (e, c) =
    (refl, subst (λ o. IsChain g o []) (sym (same i (omega arith) (omega arith))) (ended (f i) c))
  where
    ended : (o : Option ℕ) → IsChain f o [] → IsChain g o []
    ended none c = tt
    ended (some q) c = c
agrees-IsChain (suc n) i f g same (e, c) =
    let here = next_is (f i) c in
    (
      refl,
      subst (λ o. IsChain g o (numbers (i + 1) (suc n)))
          (sym (same i (omega arith) (omega arith) ∙ here))
          (agrees-IsChain n (i + 1) f g (λ j a b. same j (omega arith) (omega arith))
            (subst (λ o. IsChain f o (numbers (i + 1) (suc n))) here c)),
    )
  where
    next_is : (o : Option ℕ) → IsChain f o (numbers (i + 1) (suc n)) → o ≡ some (i + 1)
    next_is none c = absurd c
    next_is (some q) (e, c) = ap some e

next_start : (q num : ℕ) → (q + 1) * num ≡ q * num + num
next_start q num = grind arith

pub in_queue : (q num j : ℕ) → q * num ≤ j → j < q * num + num → j / num ≡ q
in_queue q num j low high = grind arith

before : (num : ℕ) → suc num - 1 ≡ num
before num = omega arith

link_each-chains :
    (posted : ℕ → Bool) (num n q : ℕ) (next : ℕ → Option ℕ)
    → ((p : ℕ) → posted p ≡ true)
    → (p : ℕ) → q ≤ p
    → p < q + n
    → IsChain
        (link_each posted (suc num) n q next).0
        (some (p * suc num))
        (numbers (p * suc num) (suc num))
unfolding link_each
link_each-chains posted num zero q next all p a b = absurd (omega arith)
link_each-chains posted num (suc n) q next all p a b =
    subst (λ f. IsChain f (some (p * suc num)) (numbers (p * suc num) (suc num))) (sym opened)
      (elim (dec_lt q p) [
        | yes later ↦
            link_each-chains posted num n (q + 1) (link_from num (q * suc num) next) all p
              (omega arith) (omega arith)
        | no first_one ↦
            subst
              (λ p.
                IsChain (link_each posted (suc num) n (q + 1) (link_from num (q * suc num) next)).0
                  (some (p * suc num)) (numbers (p * suc num) (suc num)))
              (same_queue q p a first_one)
              (agrees-IsChain num (q * suc num) (link_from num (q * suc num) next) _
                (λ j low high.
                  link_each-before posted (suc num) n (q + 1) (link_from num (q * suc num) next) j
                    (omega (arith, next_start q (suc num))))
                (link_from-IsChain num (q * suc num) next))
      ])
  where
    opened :
        (link_each posted (suc num) (suc n) q next).0
        ≡ (link_each posted (suc num) n (q + 1) (link_from num (q * suc num) next)).0
    opened = rw (all q, before num, link_each) refl

    same_queue : (q p : ℕ) → q ≤ p → ¬ (q < p) → q ≡ p
    same_queue q p a h = omega arith

-- If all lists can be posted and there are fewer than 2 ^ 31 packets, then after the set-up each queue pair has a list of its own of
-- `recv_pkt_num` packets, ended by NULL, and every packet of it, when it is released, is posted to
-- this queue pair again.
pub link_recvs-IsChain :
    (posted : ℕ → Bool) (post : ℕ → ℕ → ℕ) (recv_pkt_num nqp : ℕ) (next : ℕ → Option ℕ)
    → ((p : ℕ) → posted p ≡ true)
    → 0 < recv_pkt_num
    → nqp * recv_pkt_num < 2 ^ 31
    → (p : ℕ) → p < nqp
    → IsChain
        (link_recvs posted recv_pkt_num nqp 0 next).0
        (some (p * recv_pkt_num))
        (numbers (p * recv_pkt_num) recv_pkt_num)
      × ((j : ℕ)
          → p * recv_pkt_num ≤ j
          → j < p * recv_pkt_num + recv_pkt_num
          → release_pkts 0 post recv_pkt_num (some j) ≡ post p j)
unfolding release_pkts
link_recvs-IsChain posted post zero nqp next all some_ small p l = absurd (omega arith)
link_recvs-IsChain posted post (suc num) nqp next all some_ small p l = (
  subst (λ r. IsChain r.0 (some (p * suc num)) (numbers (p * suc num) (suc num)))
      (sym (
        link_recvs-link_each posted (suc num) nqp 0 next
          (subst (λ m. m * suc num < 2 ^ 31) (omega arith) small)))
      (link_each-chains posted num nqp 0 next all p (omega arith) (omega arith)),
  λ j low high. ap (λ q. post q j) (in_queue p (suc num) j low high),
)
