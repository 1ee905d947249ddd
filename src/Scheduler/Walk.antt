-- ===== src/Scheduler/Walk.antt =====
-- Where the walk of `scheduler_add_task` in src/kernel/task/scheduler.c stops, and what is linked there.
use szczupak_os.Base.{
  ℕ, zero, suc, ◌≤◌, ◌≡◌, refl, sym, ap, ◌∙◌, subst, ◌≢◌, inl, inr, Option, none, some, List, [],
  ◌∷◌, arith, leb, eq→==, ne→==, Bool-cases, length,
}
use szczupak_os.Scheduler.{Task, Store, walk, splice}
use szczupak_os.Scheduler.Queue.{insert, last, Chain, NotIn, Distinct}

splice_ne :
    (t prev x : ℕ) (cur : Option ℕ) (ts : Store) → x ≢ prev → x ≢ t → splice t prev cur ts x ≡ ts x
splice_ne t prev x cur ts a b = rw (ne→== x prev a, ne→== x t b)

splice_prev : (t prev : ℕ) (cur : Option ℕ) (ts : Store) → (splice t prev cur ts prev).next ≡ some t
splice_prev t prev cur ts = rw (eq→== prev prev refl)

splice_at :
    (t prev : ℕ) (cur : Option ℕ) (ts : Store) → prev ≢ t → (splice t prev cur ts t).next ≡ cur
splice_at t prev cur ts a = rw (ne→== t prev (λ e. a (sym e)), eq→== t t refl)

-- The tasks that are neither linked from nor to stay linked.
Chain-splice :
    (t prev : ℕ) (cur : Option ℕ) (ts : Store) (qs : List ℕ) (head : Option ℕ)
    → NotIn prev qs
    → NotIn t qs
    → Chain ts head qs
    → Chain (splice t prev cur ts) head qs
Chain-splice t prev cur ts [] head a b c = c
Chain-splice t prev cur ts (q ∷ qs) head a b c = (
  c.0,
  subst (λ x. Chain (splice t prev cur ts) x.next qs) (sym (splice_ne t prev q cur ts a.0 b.0))
      (Chain-splice t prev cur ts qs (ts q).next a.1 b.1 c.1),
)

-- What the walk finds from `p` on, where the tasks behind it are `qs`.
pub record Linked (prio : ℕ → ℕ) (fuel t p : ℕ) (ts : Store) (qs : List ℕ) : Type 0 where
  pub prev : ℕ
  pub cur : Option ℕ
  pub walked : walk fuel ts (prio t) (some p) (ts p).next ≡ some (some prev, cur)
  pub chain : Chain (splice t prev cur ts) (splice t prev cur ts p).next (insert prio t qs)
  pub near : (x : ℕ) → x ≢ p → NotIn x qs → x ≢ prev
  pub tail : last (p ∷ insert prio t qs) ≡ (elim cur [ none ↦ some t | some _ ↦ last (p ∷ qs) ])

pub walk-Linked :
    (prio : ℕ → ℕ) (fuel t p : ℕ) (ts : Store) (qs : List ℕ)
    → ((q : ℕ) → (ts q).priority ≡ prio q)
    → Chain ts (ts p).next qs
    → p ≢ t
    → NotIn p qs
    → NotIn t qs
    → Distinct qs
    → length qs ≤ fuel
    → Linked prio fuel t p ts qs
unfolding walk
walk-Linked prio fuel t p ts [] same c pt np nt d k = record {
  prev = p;
  cur = none;
  walked = rw c refl;
  chain = (splice_prev t p none ts, splice_at t p none ts pt);
  near = λ x a b. a;
  tail = refl;
}
walk-Linked prio zero t p ts (q ∷ qs) same c pt np nt d k = absurd (omega (arith, k))
walk-Linked prio (suc fuel) t p ts (q ∷ qs) same c pt np nt d k =
    elim (Bool-cases (leb (prio q) (prio t))) [
      | inl e ↦
          let rest =
            walk-Linked prio fuel t q ts qs same c.1 nt.0 d.0 nt.1 d.1 (omega (arith, k)) in
          record {
            prev = rest.prev;
            cur = rest.cur;
            walked = rw (c.0, same q, e) rest.walked;
            chain = rw e (
              ap (λ (x : Task). x.next)
                    (splice_ne t rest.prev p rest.cur ts (rest.near p (λ h. np.0 (sym h)) np.1) pt)
                  ∙ c.0,
              rest.chain,
            );
            near = λ x a b. rest.near x (λ h. b.0 (sym h)) b.1;
            tail = rw e rest.tail;
          }
      | inr e ↦ record {
        prev = p;
        cur = some q;
        walked = rw (c.0, same q, e) refl;
        chain = rw e (
          splice_prev t p (some q) ts,
          (
            splice_at t p (some q) ts pt,
            (Chain-splice t p (some q) ts (q ∷ qs) (ts p).next np nt c).1,
          ),
        );
        near = λ x a b. a;
        tail = rw e refl;
      }
    ]
