-- ===== src/Torznab/Parameter.antt =====
-- The canonical parameters of internal/torznab/query.go. A `ParameterError` is its parameter.

pub data Parameter : Type 0 where
  api_key type query category limit offset extended season episode : Parameter
