-- ===== src/Pcie/Nodes.antt =====
-- The device nodes that `xdmaNodes` of fpgactl/src/pcie.cpp finds.
use mrs_fpga_toolkit.Base.{
  ℕ, ◌≡◌, refl, arith, Bool, true, false, ◌&&◌, all, List, [], ◌∷◌, ◌++◌, Text, codes,
}
use mrs_fpga_toolkit.Machine.Hands.{Hands, Hands-bind, Hands-pure, Hands-of_keeps}
use mrs_fpga_toolkit.Common.{Host}
use mrs_fpga_toolkit.Pcie.{node_prefix, starts_with, insert_text, sort_texts}
use mrs_fpga_toolkit.Pcie.Inspect.{with_prefix, xdma_nodes}
use mrs_fpga_toolkit.Pcie.Quiet.{IsLooking}

-- A device node of the index.
abbrev pub is_node : ℕ → Text → Bool
is_node index path = starts_with (codes "/dev/" ++ node_prefix index) path

pub both_true : (a b : Bool) → (a && b) ≡ true → (a ≡ true) × (b ≡ true)
both_true true b h = (refl, h)
both_true false b h = absurd (cc)

under_dev :
    (prefix name : Text)
    → starts_with (codes "/dev/" ++ prefix) (codes "/dev/" ++ name) ≡ starts_with prefix name
unfolding starts_with
under_dev prefix name = refl

with_prefix-nodes :
    {S : Type 0} (host : Host S) (index : ℕ) (names : List Text)
    → all (is_node index) (with_prefix host (node_prefix index) names) ≡ true
unfolding with_prefix
with_prefix-nodes host index [] = refl
with_prefix-nodes host index (name ∷ rest) =
    ground (arith, under_dev (node_prefix index) name, with_prefix-nodes host index rest)

all-insert_text :
    (p : Text → Bool) (t : Text) (ts : List Text)
    → p t ≡ true
    → all p ts ≡ true
    → all p (insert_text t ts) ≡ true
unfolding insert_text
all-insert_text p t [] h k = ground (arith, h)
all-insert_text p t (u ∷ ts) h k =
    let (first, later) = both_true (p u) (all p ts) k in
    let further = all-insert_text p t ts h later in ground (arith, h, first, later, further)

all-sort_texts : (p : Text → Bool) (ts : List Text) → all p ts ≡ true → all p (sort_texts ts) ≡ true
unfolding sort_texts
all-sort_texts p [] h = refl
all-sort_texts p (t ∷ ts) h =
    let (first, later) = both_true (p t) (all p ts) h in
    all-insert_text p t (sort_texts ts) first (all-sort_texts p ts later)

-- What is found are nodes of the index.
pub xdma_nodes-Hands :
    {S : Type 0} (host : Host S) {P : S → Type 0}
    → IsLooking host P
    → (index : ℕ) → Hands P (λ nodes. all (is_node index) nodes ≡ true) (xdma_nodes host index)
unfolding xdma_nodes
xdma_nodes-Hands host looking index =
    Hands-bind _ _ (Hands-of_keeps _ (looking.entries (codes "/dev"))) (λ names _.
      Hands-pure _ (all-sort_texts (is_node index) _ (with_prefix-nodes host index names)))
