-- ===== src/Python.antt =====
-- What the program uses of Python and its standard library: exceptions as values, datetimes,
-- dicts with text keys, and the texts of UUIDs and datetimes.
pub mod Datetime
pub mod Result
pub mod Dict
pub mod Platform
pub mod Unicode
pub mod Regex
pub mod Timedelta
pub mod Strings
