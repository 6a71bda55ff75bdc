-- ===== src/Listing/Filters.antt =====
-- Parts of the `where` arguments: a filter stands there only if its option is given.
use opsdesk.Base.{
  if◌then◌else◌, ◌==◌, String, Bool, true, false, Option, none, some, nat_eq, string_eq,
}

-- a filter that is applied where its value is given
abbrev pub where_given : {A : Type 0} → Option A → (A → Bool) → Bool
where_given none f = true
where_given (some a) f = f a

-- the empty text counts as not given
abbrev pub where_text : Option String → (String → Bool) → Bool
where_text none f = true
where_text (some s) f = if s == "" then true else f s

-- a test on a column that may be null
abbrev pub in_column : (String → Bool) → Option String → Bool
in_column f none = false
in_column f (some s) = f s
