-- ===== src/Ibv/Shutdown/Count.antt =====
-- How often a call is made in a list of calls.
use hashpipe.Base.{
  ℕ, zero, suc, ◌+◌, ◌≡◌, ◌≢◌, sym, ap, ap₂, ◌∙◌, arith, ltb, leb, ◌==◌, ◌&&◌, if◌then◌else◌,
  ℕ_discrete, subst,
}
use hashpipe.Base.{Bool, false, Option, none, some, List, [], ◌∷◌, ◌++◌}
use hashpipe.Ibv.Shutdown.{
  Memory, qps, send_cqs, recv_cqs, send_pkts, recv_pkts, send_sges, recv_sges, flows, dst_ips,
  Release, leave, destroy_flow, destroy_qp, destroy_send_cq, destroy_recv_cq, dereg_send_mr,
  dereg_recv_mr, destroy_recv_cc, dealloc_pd, close_device, free, munmap_send, munmap_recv,
  close_socket, when, each, each_of, each_flow, is_there,
}

abbrev pub memory_number : Memory → ℕ
memory_number qps = 0
memory_number send_cqs = 1
memory_number recv_cqs = 2
memory_number send_pkts = 3
memory_number recv_pkts = 4
memory_number send_sges = 5
memory_number recv_sges = 6
memory_number flows = 7
memory_number dst_ips = 8

-- The kind of a call, and which one of its kind it is.
abbrev pub tag : Release → ℕ
tag (leave i) = 0
tag (destroy_flow i) = 1
tag (destroy_qp i) = 2
tag (destroy_send_cq i) = 3
tag (destroy_recv_cq i) = 4
tag dereg_send_mr = 5
tag dereg_recv_mr = 6
tag destroy_recv_cc = 7
tag dealloc_pd = 8
tag close_device = 9
tag (free m) = 10
tag (munmap_send n) = 11
tag (munmap_recv n) = 12
tag (close_socket s) = 13

abbrev pub index : Release → ℕ
index (leave i) = i
index (destroy_flow i) = i
index (destroy_qp i) = i
index (destroy_send_cq i) = i
index (destroy_recv_cq i) = i
index (free m) = memory_number m
index (close_socket s) = s
index (munmap_send n) = n
index (munmap_recv n) = n
index _ = 0

abbrev pub same : Release → Release → Bool
same r q = tag r == tag q && index r == index q

-- How often a call is made.
unfoldable pub count : Release → List Release → ℕ
count r [] = 0
count r (q ∷ qs) = (if same r q then 1 else 0) + count r qs

abbrev pub one_if : Bool → ℕ
one_if b = if b then 1 else 0

abbrev pub entry : Option (ℕ → Bool) → ℕ → ℕ → Bool
entry none n i = false
entry (some f) n i = ltb i n && f i

abbrev pub is_socket : Option ℕ → ℕ → Bool
is_socket none s = false
is_socket (some t) s = s == t

pub count-append :
    (r : Release) (xs ys : List Release) → count r (xs ++ ys) ≡ count r xs + count r ys
unfolding count
count-append r [] ys = omega arith
count-append r (x ∷ xs) ys =
    omega (arith, ap (λ n. (if same r x then 1 else 0) + n) (count-append r xs ys))

pub count-when : (r q : Release) (b : Bool) → count r (when b q) ≡ one_if (same r q && b)
unfolding count
count-when r q b = ground arith

first_or_later :
    (g t x i n : ℕ) (present : ℕ → Bool)
    → one_if ((g == t && x == i) && present i)
        + one_if (g == t && (leb (i + 1) x && ltb x (i + 1 + n)) && present x)
      ≡ one_if (g == t && (leb i x && ltb x (i + suc n)) && present x)
first_or_later g t x i n present = elim (ℕ_discrete x i) [
  | yes e ↦
      subst
        (λ j.
          one_if ((g == t && j == i) && present i)
            + one_if (g == t && (leb (i + 1) j && ltb j (i + 1 + n)) && present j)
          ≡ one_if (g == t && (leb i j && ltb j (i + suc n)) && present j))
        (sym e) (at_first (present i))
  | no ne ↦ ground (arith, ne)
]
  where
    at_first :
        (b : Bool)
        → one_if ((g == t && i == i) && b)
            + one_if (g == t && (leb (i + 1) i && ltb i (i + 1 + n)) && b)
          ≡ one_if (g == t && (leb i i && ltb i (i + suc n)) && b)
    at_first b = ground arith

-- An array whose entry `i` is released by `make i`, of kind `t`.
count-each :
    (r : Release) (t n i : ℕ) (present : ℕ → Bool) (make : ℕ → Release)
    → ((j : ℕ) → tag (make j) ≡ t)
    → ((j : ℕ) → index (make j) ≡ j)
    → count r (each n i present make)
      ≡ one_if (tag r == t && (leb i (index r) && ltb (index r) (i + n)) && present (index r))
unfolding each count
count-each r t zero i present make e f = ground arith
count-each r t (suc n) i present make e f =
    count-append r (when (present i) (make i)) (each n (i + 1) present make)
    ∙ ap₂ ◌+◌ (count-when r (make i) (present i)) (count-each r t n (i + 1) present make e f)
    ∙ last
  where
    last :
        one_if (same r (make i) && present i)
          + one_if (
              tag r == t
              && (leb (i + 1) (index r) && ltb (index r) (i + 1 + n))
              && present (index r))
        ≡ one_if (tag r == t && (leb i (index r) && ltb (index r) (i + suc n)) && present (index r))
    last = rw (e i, f i) (first_or_later (tag r) t (index r) i n present)

pub count-each_of :
    (r : Release) (t n : ℕ) (m : Memory) (present : Option (ℕ → Bool)) (make : ℕ → Release)
    → ((j : ℕ) → tag (make j) ≡ t)
    → ((j : ℕ) → index (make j) ≡ j)
    → count r (each_of n m present make)
      ≡ one_if (tag r == t && entry present n (index r))
        + one_if (same r (free m) && is_there present)
unfolding each_of count
count-each_of r t n m none make e f = ground arith
count-each_of r t n m (some present) make e f =
    count-append r (each n 0 present make) (free m ∷ [])
    ∙ ap (λ k. k + count r (free m ∷ [])) (count-each r t n 0 present make e f)
    ∙ ground arith

-- The calls for one entry of the table of flows.
count-flow :
    (r : Release) (i max_flows : ℕ) (present : ℕ → Bool) (ips : ℕ → ℕ)
    → tag r ≢ 0
    → count r
        (if present i then when (ltb i max_flows) (leave (ips i)) ++ destroy_flow i ∷ [] else [])
      ≡ one_if (same r (destroy_flow i) && present i)
unfolding count
count-flow r i max_flows present ips ne = ground (arith, ne)

pub count-each_flow :
    (r : Release) (n i max_flows : ℕ) (present : ℕ → Bool) (ips : ℕ → ℕ)
    → tag r ≢ 0
    → count r (each_flow n i max_flows present ips)
      ≡ one_if (tag r == 1 && (leb i (index r) && ltb (index r) (i + n)) && present (index r))
unfolding each_flow count
count-each_flow r zero i max_flows present ips ne = ground arith
count-each_flow r (suc n) i max_flows present ips ne =
    count-append r
      (if present i then when (ltb i max_flows) (leave (ips i)) ++ destroy_flow i ∷ [] else [])
      (each_flow n (i + 1) max_flows present ips)
    ∙ ap₂ ◌+◌ (count-flow r i max_flows present ips ne)
        (count-each_flow r n (i + 1) max_flows present ips ne)
    ∙ first_or_later (tag r) 1 (index r) i n present
