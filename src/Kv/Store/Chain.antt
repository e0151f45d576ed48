-- ===== src/Kv/Store/Chain.antt =====
-- A chain of pages, and the records in it.
use go_db.Base.{
  ℕ, ◌+◌, ◌≤◌, ◌<◌, ◌^◌, ◌≡◌, refl, sym, ap, ◌∙◌, List, [], ◌∷◌, ◌++◌, append_assoc, arith,
}
use mathlib.Core.Path.{subst}
use go_db.Storage.Page.{Page, new_page, no_page, next_page_id}
use go_db.Storage.Page.Header.{new_page_header}
use go_db.Kv.Record.{Record}
use go_db.Kv.Record.Pages.{HoldsRecords, new_page-HoldsRecords}

-- The pages from one on up to another, that one left out, hold these records in this order. Each
-- page links to one of a greater id.
pub data Run (v : ℕ → Page) (last : ℕ) : ℕ → List Record → Type 0 where
  stop : {id : ℕ} {rs : List Record} → id ≡ last → rs ≡ [] → Run v last id rs
  link :
      {id j : ℕ} {rs here rest : List Record}
      → id < j
      → HoldsRecords (v id) here
      → next_page_id (v id) ≡ j
      → Run v last j rest
      → rs ≡ here ++ rest
      → Run v last id rs

pub Run-le : {v : ℕ → Page} {last id : ℕ} {rs : List Record} → Run v last id rs → id ≤ last
Run-le (stop e q) = omega arith
Run-le (link {j = j} lt h e r q) = omega (arith, Run-le r)

-- Pages from `last` on do not matter.
pub Run-alike :
    {v w : ℕ → Page} {last id : ℕ} {rs : List Record}
    → ((j : ℕ) → j < last → w j ≡ v j)
    → Run v last id rs
    → Run w last id rs
Run-alike same (stop e q) = stop e q
Run-alike {last = last} {id = id} same (link {here = hs} lt h e r q) =
    let before : id < last = omega (arith, Run-le r) in
    link lt (subst (λ p. HoldsRecords p hs) (sym (same id before)) h)
      (ap next_page_id (same id before) ∙ e) (Run-alike same r) q

-- One page more.
pub Run-append :
    {v : ℕ → Page} {last id : ℕ} {rs here : List Record} (j : ℕ)
    → last < j
    → HoldsRecords (v last) here
    → next_page_id (v last) ≡ j
    → Run v last id rs
    → Run v j id (rs ++ here)
Run-append {v} {here = here} j lt h e (stop at q) = rw q (
    link (rw at lt) (subst (λ k. HoldsRecords (v k) here) (sym at) h)
      (ap (λ k. next_page_id (v k)) at ∙ e) (stop refl refl) (sym (append_nil here)))
  where
    append_nil : (xs : List Record) → xs ++ [] ≡ xs
    append_nil [] = refl
    append_nil (x ∷ xs) = ap (◌∷◌ x) (append_nil xs)
Run-append {here = here} j lt h e (link {here = hs} {rest = rest} less own next r q) =
    link less own next (Run-append j lt h e r) (ap (λ l. l ++ here) q ∙ append_assoc hs rest here)

-- The chain that begins at `first`, in a file of `n` pages: the last page links to none.
pub record Chain (v : ℕ → Page) (n first : ℕ) (rs : List Record) : Type 0 where
  pub last : ℕ
  pub front : List Record
  pub behind : List Record
  pub run : Run v last first front
  pub inside : last < n
  pub holds : HoldsRecords (v last) behind
  pub ends : next_page_id (v last) ≡ no_page
  pub all : rs ≡ front ++ behind

module _ {v : ℕ → Page} {n first : ℕ} {rs : List Record} (c : Chain v n first rs) (w : ℕ → Page)
    (same : (j : ℕ) → j < c.last → w j ≡ v j) (r : Record) where
  -- A record more in the last page.
  pub Chain-append :
      HoldsRecords (w c.last) (c.behind ++ r ∷ [])
      → next_page_id (w c.last) ≡ no_page
      → Chain w n first (rs ++ r ∷ [])
  Chain-append h e = record {
    last = c.last;
    front = c.front;
    behind = c.behind ++ r ∷ [];
    run = Run-alike same c.run;
    inside = c.inside;
    holds = h;
    ends = e;
    all = ap (λ l. l ++ r ∷ []) c.all ∙ append_assoc c.front c.behind (r ∷ []);
  }

  -- A record in a new page `j` behind the last one.
  pub Chain-extend :
      (j m : ℕ)
      → c.last < j
      → j < m
      → HoldsRecords (w c.last) c.behind
      → next_page_id (w c.last) ≡ j
      → HoldsRecords (w j) (r ∷ [])
      → next_page_id (w j) ≡ no_page
      → Chain w m first (rs ++ r ∷ [])
  Chain-extend j m after_last lt h e own none_after = record {
    last = j;
    front = c.front ++ c.behind;
    behind = r ∷ [];
    run = Run-append j after_last h e (Run-alike same c.run);
    inside = lt;
    holds = own;
    ends = none_after;
    all = ap (λ l. l ++ r ∷ []) c.all;
  }

-- The chain of one empty page.
pub Chain-new_page :
    (w : ℕ → Page) (n : ℕ) {rs : List Record}
    → n < 2 ^ 32
    → w n ≡ new_page n
    → rs ≡ []
    → (c : Chain w (n + 1) n rs) × (c.last ≡ n)
Chain-new_page w n small e empty = (
  record {
    last = n;
    front = [];
    behind = [];
    run = stop refl refl;
    inside = omega arith;
    holds = subst (λ p. HoldsRecords p []) (sym e) (new_page-HoldsRecords n small);
    ends = ap next_page_id e ∙ (new_page_header n small).2;
    all = empty;
  },
  refl,
)

pub new_page_id : (n : ℕ) → (new_page n).id ≡ n
unfolding new_page
new_page_id n = refl
