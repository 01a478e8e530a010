-- ===== src/ScopeExit.antt =====
-- lib/shared/notstd/include/notstd/scope.hxx: lambda_call and scope_exit. The objects that hold one
-- callable, by moves from the first, are a list of their m_call; the runs of the callable are
-- counted. A destroyed object keeps its place and is not used again.
mod Once
mod Tests
use near_object_framework.Common.{
  ℕ, zero, suc, ◌+◌, ◌≡◌, Bool, true, false, List, [], ◌∷◌, ◌++◌, if◌then◌else◌,
}

-- The lambda_call objects of one callable.
pub record LambdaCalls : Type 0 where
  pub m_call : List Bool
  pub runs : ℕ

-- What has no object is not called.
abbrev pub will_call : ℕ → List Bool → Bool
will_call i [] = false
will_call zero (b ∷ bs) = b
will_call (suc i) (b ∷ bs) = will_call i bs

abbrev pub clear : ℕ → List Bool → List Bool
clear i [] = []
clear zero (b ∷ bs) = false ∷ bs
clear (suc i) (b ∷ bs) = b ∷ clear i bs

-- scope_exit and the constructor of lambda_call: the first object of the callable.
pub scope_exit : LambdaCalls
scope_exit = record { m_call = true ∷ []; runs = 0 }

-- The move constructor: the new object calls what the other would have called.
pub move : ℕ → LambdaCalls → LambdaCalls
move i s = record s { m_call = clear i s.m_call ++ will_call i s.m_call ∷ [] }

-- lambda_call::release.
pub release : ℕ → LambdaCalls → LambdaCalls
release i s = record s { m_call = clear i s.m_call }

-- lambda_call::reset.
pub reset : ℕ → LambdaCalls → LambdaCalls
reset i s =
    if will_call i s.m_call then record { m_call = clear i s.m_call; runs = suc s.runs } else s

-- lambda_call::~lambda_call.
pub destroy : ℕ → LambdaCalls → LambdaCalls
unfolding reset
destroy i s = reset i s

-- An operation on one of the objects.
pub data Operation : Type 0 where
  moves releases resets destroys : (i : ℕ) → Operation

pub operate : Operation → LambdaCalls → LambdaCalls
unfolding move release reset destroy
operate (moves i) s = move i s
operate (releases i) s = release i s
operate (resets i) s = reset i s
operate (destroys i) s = destroy i s

pub operate_all : List Operation → LambdaCalls → LambdaCalls
unfolding operate
operate_all [] s = s
operate_all (o ∷ os) s = operate_all os (operate o s)
