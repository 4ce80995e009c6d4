-- ===== src/Cpm/Feasible.antt =====
-- What a schedule is for services/cpm.py: a start for each activity. This is the specification
-- that the two passes are measured by; it does not mention the engine.
use defense_pm_tool.Prelude.{ℕ, ◌≡◌, ◌↔◌, some}
use defense_pm_tool.Prelude.Int.{ℤ, pos, ◌+ℤ◌, ◌≤ℤ◌, int_laws}
use defense_pm_tool.Prelude.Dict.{Dict, lookup}
use defense_pm_tool.Networkx.{Networkx, Edge, EdgeType, fs}
use defense_pm_tool.Cpm.{Activity, earliest, latest}

module _ (nx : Networkx) (activities : Dict Activity) (graph : nx.Graph) where
  open nx use {edges}

  -- Every dependency between two activities is met, and none starts before day 0.
  pub record IsFeasible (start : ℕ → ℤ) : Type 0 where
    pub nonneg : (k : ℕ) (a : Activity) → lookup k activities ≡ some a → pos 0 ≤ℤ start k
    pub meets :
        (p v : ℕ) (e : Edge) (a b : Activity)
        → edges graph p v ≡ some e
        → lookup p activities ≡ some a
        → lookup v activities ≡ some b
        → earliest e.dependency_type e.lag (start p) (start p +ℤ a.duration) b.duration ≤ℤ start v

  -- Both ends of every edge are activities.
  pub record IsClosed : Type 0 where
    pub source_known :
        (u v : ℕ) (e : Edge)
        → edges graph u v ≡ some e
        → (a : Activity) × (lookup u activities ≡ some a)
    pub target_known :
        (u v : ℕ) (e : Edge)
        → edges graph u v ≡ some e
        → (a : Activity) × (lookup v activities ≡ some a)

-- `earliest` grows with the predecessor's dates.
pub earliest-mono :
    (x : EdgeType) (lag s t f g d : ℤ)
    → s ≤ℤ t
    → f ≤ℤ g
    → earliest x lag s f d ≤ℤ earliest x lag t g d
unfolding earliest
earliest-mono fs lag s t f g d h k = omega int_laws
earliest-mono _ lag s t f g d h k = omega int_laws

-- The two passes read a dependency alike: the successor starts late enough exactly if the
-- predecessor finishes early enough, whatever the type, the lag and the two durations.
pub earliest-latest_iff :
    (x : EdgeType) (lag s t a b : ℤ)
    → (earliest x lag s (s +ℤ a) b ≤ℤ t) ↔ (s +ℤ a ≤ℤ latest x lag t (t +ℤ b) a)
unfolding earliest latest
earliest-latest_iff fs lag s t a b = (λ h. omega int_laws, λ h. omega int_laws)
earliest-latest_iff _ lag s t a b = (λ h. omega int_laws, λ h. omega int_laws)

-- `latest` grows with the successor's dates.
pub latest-mono :
    (x : EdgeType) (lag s t f g d : ℤ) → s ≤ℤ t → f ≤ℤ g → latest x lag s f d ≤ℤ latest x lag t g d
unfolding latest
latest-mono fs lag s t f g d h k = omega int_laws
latest-mono _ lag s t f g d h k = omega int_laws
