-- ===== src/Docker/Inspect.antt =====
-- api/docker_ops.py: the published port in the output of `docker inspect`.
use Prim.Native.Char.{code}
use Prim.Native.String.{String}
use sansbox_sql.Base.{
  ℕ, ◌+◌, ◌-◌, ◌*◌, Bool, true, false, not, ◌&&◌, Option, none, some, ◌==◌, nat_eq, string_eq, ltb,
  leb, if◌then◌else◌,
}

-- What `json.loads` gives; `other` is a boolean or a number that is no natural number, with its
-- truth value. The names in an object are different.
mutual
  pub data Json : Type 0 where
    null : Json
    text : String → Json
    number : ℕ → Json
    other : Bool → Json
    array : Items → Json
    object : Fields → Json

  pub data Items : Type 0 where
    no_items : Items
    item : Json → Items → Items

  pub data Fields : Type 0 where
    no_fields : Fields
    field : String → Json → Fields → Fields

truthy : Json → Bool
truthy null = false
truthy (text s) = not (s == "")
truthy (number n) = ltb 0 n
truthy (other b) = b
truthy (array no_items) = false
truthy (array (item j js)) = true
truthy (object no_fields) = false
truthy (object (field n j fs)) = true

lookup : String → Json → Fields → Json
lookup name default no_fields = default
lookup name default (field n j fs) =
    let rest = lookup name default fs in if n == name then j else rest

-- An attempt inside the `try`; none is any exception.
attempt : {A B : Type 0} → Option A → (A → Option B) → Option B
attempt none f = none
attempt (some a) f = f a

-- `value.get(name, default)`
get_or : Json → String → Json → Option Json
unfolding lookup
get_or (object fs) name default = some (lookup name default fs)
get_or _ name default = none

-- `value[0]`; a text has an index too, but its first character has no `get`.
first : Json → Option Json
first (array (item j js)) = some j
first _ = none

is_digit : ℕ → Bool
is_digit c = leb b'0' c && leb c b'9'

all_digits : String → Bool
unfolding is_digit
all_digits String.[] = true
all_digits (String.◌∷◌ c s) = is_digit (code c) && all_digits s

value_from : ℕ → String → ℕ
value_from n String.[] = n
value_from n (String.◌∷◌ c s) = value_from (10 * n + (code c - b'0')) s

-- `host_port and str(host_port).isdigit()`, and then `int(host_port)`, for ASCII digits
port_number : Json → Option ℕ
unfolding all_digits value_from
port_number (text s) = if not (s == "") && all_digits s then some (value_from 0 s) else none
port_number (number n) = if ltb 0 n then some n else none
port_number _ = none

-- The port of the first binding, if there is one; the outer none is an exception.
bound_port : Json → Option (Option ℕ)
unfolding truthy first get_or port_number
bound_port bindings =
    if truthy bindings
    then attempt (first bindings)
        (λ b. attempt (get_or b "HostPort" null) (λ p. some (port_number p)))
    else some none

-- `data[0].get(outer, {}).get(inner, {}).get("3306/tcp")`
bindings_at : Json → String → String → Option Json
unfolding first get_or attempt
bindings_at data' outer inner = attempt (first data') (λ top.
    attempt (get_or top outer (object no_fields))
      (λ a. attempt (get_or a inner (object no_fields)) (λ b. get_or b "3306/tcp" null)))

or_else : Option ℕ → Option (Option ℕ) → Option (Option ℕ)
or_else none other' = other'
or_else (some p) other' = some (some p)

flatten : Option (Option ℕ) → Option ℕ
flatten none = none
flatten (some p) = p

-- The body of the `try` in `_read_published_port`
unfoldable pub published : Json → Option ℕ
unfolding bindings_at bound_port or_else flatten attempt
published data' = flatten (
    attempt (bindings_at data' "NetworkSettings" "Ports") (λ bindings.
      attempt (bound_port bindings) (λ found.
        or_else found (attempt (bindings_at data' "HostConfig" "PortBindings") bound_port))))
