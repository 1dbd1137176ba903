-- ===== src/Problem/Tests.antt =====
-- The exercises of cpp/problem on concrete inputs.
mod Urls
mod Numbers
mod Vectors
mod Spans
